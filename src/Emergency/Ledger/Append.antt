-- ===== src/Emergency/Ledger/Append.antt =====
-- `appendUnlocked` keeps a ledger that `verifyEmergency` accepts, also where the writer stops
-- between the append and the rename of the checkpoint.
use agent_context_broker.Prelude.{
  ℕ, ◌+◌, String, ◌≡◌, ◌≢◌, refl, ◌∙◌, Bool, true, false, Option, none, some, List, [], ◌∷◌, ◌++◌,
  map, arith, length, length-append, Bool-cases, inl, inr,
}
use mathlib.Core.List.{append_assoc, map-append}
use text.Mathlib.TextPositions.{eq_refl}
use agent_context_broker.Platform.{Platform}
use agent_context_broker.Emergency.Record.{RecordData, record_schema}
use agent_context_broker.Emergency.Ledger.{
  LedgerRecord, line, LedgerFile, HeadFile, missing, unreadable, head, Store, Warning, head_behind,
  invalid, accepted, Seen, start, admits, hash_before_last, check_head, finish, verify_files,
  verify_store, scan_line, scan, last_hash, lines_of, written, published, ok, entry_for,
  append_unlocked,
}
use agent_context_broker.Emergency.Ledger.Scan.{
  opened_ids, seen, last_hash-snoc, Accepts, Chain, chain_nil, chain_snoc, scan-append, scan-start,
  scan_of_Chain,
}

-- The head that stands beside `rs`: none before the first record.
abbrev pub head_of : List LedgerRecord → HeadFile
head_of [] = missing
head_of (r ∷ rs) = head (last_hash (r ∷ rs)) (length (r ∷ rs))

abbrev pub is_torn : Option LedgerFile → Bool
is_torn none = false
is_torn (some file) = file.partial

-- What the checkpoint says of the records beside it.
check_head_synced :
    (r : LedgerRecord) (rs : List LedgerRecord)
    → check_head (head_of (r ∷ rs)) (last_hash (r ∷ rs)) (r ∷ rs) ≡ accepted (r ∷ rs) []
unfolding check_head
check_head_synced r rs = ground (arith, eq_refl (last_hash (r ∷ rs)))

hash_before_last-snoc :
    (r : LedgerRecord) (rs : List LedgerRecord) (s : LedgerRecord)
    → hash_before_last (r ∷ (rs ++ s ∷ [])) ≡ some (last_hash (r ∷ rs))
hash_before_last-snoc r [] s = refl
hash_before_last-snoc r (t ∷ []) s = refl
hash_before_last-snoc r (t ∷ u ∷ rs) s = hash_before_last-snoc t (u ∷ rs) s

check_head_lagging :
    (rs : List LedgerRecord) (r : LedgerRecord)
    → check_head (head_of rs) (last_hash (rs ++ r ∷ [])) (rs ++ r ∷ [])
      ≡ accepted (rs ++ r ∷ []) (head_behind ∷ [])
unfolding check_head
check_head_lagging [] r = refl
check_head_lagging (s ∷ rs) r =
    simp hash_before_last-snoc
      (ground (arith, eq_refl (last_hash (s ∷ rs)), length-append rs (r ∷ [])))

-- A checkpoint that is two records behind is refused.
check_head_two_behind :
    (rs : List LedgerRecord) (r s : LedgerRecord)
    → check_head (head_of rs) (last_hash (rs ++ r ∷ s ∷ [])) (rs ++ r ∷ s ∷ []) ≡ invalid
unfolding check_head
check_head_two_behind [] r s = refl
check_head_two_behind (t ∷ rs) r s = ground (arith, length-append rs (r ∷ s ∷ []))

pub snoc-ne-nil : (rs : List LedgerRecord) (r : LedgerRecord) → rs ++ r ∷ [] ≢ []
snoc-ne-nil [] r = cc
snoc-ne-nil (s ∷ rs) r = cc

module _ (p : Platform) where
  -- A store that holds the records `rs` and nothing else.
  pub record Holds (rs : List LedgerRecord) (st : Store) : Type 0 where
    pub lines : lines_of st.ledger ≡ map line rs
    pub whole : is_torn st.ledger ≡ false
    pub chain : Chain p rs

  check_head_valid :
      (h : HeadFile) (previous : String) (rs : List LedgerRecord)
      → (check_head h previous rs).valid ≡ true
      → (check_head h previous rs).records ≡ rs
  unfolding check_head
  check_head_valid missing previous [] e = ground arith
  check_head_valid missing previous (r ∷ []) e = ground arith
  check_head_valid missing previous (r ∷ s ∷ rs) e = ground arith
  check_head_valid unreadable previous rs e = cc
  check_head_valid (head h n) previous rs e = ground arith

  finish_valid :
      (h : HeadFile) (o : Option Seen)
      → (finish h o).valid ≡ true
      → (s : Seen) × (o ≡ some s) × ((finish h o).records ≡ s.records)
  finish_valid h none e = cc
  finish_valid h (some s) e = (s, refl, check_head_valid h s.previous s.records e)

  verify_files_valid :
      (file : Option LedgerFile) (h : HeadFile)
      → (verify_files p file h).valid ≡ true
      → (lines_of file ≡ map line (verify_files p file h).records)
        × (is_torn file ≡ false)
        × Chain p (verify_files p file h).records
  unfolding verify_files
  verify_files_valid none missing e = (refl, refl, chain_nil)
  verify_files_valid none _ e = cc
  verify_files_valid (some file) h e = elim (Bool-cases file.partial) [
    | inl torn ↦ cc (rw torn at e)
    | inr whole ↦
        let (s, done, found) = finish_valid h (scan p start file.lines) (rw whole at e) in
        let (rs, lines, same, chain) = scan-start p file.lines s done in
        let equal : (finish h (scan p start file.lines)).records ≡ rs = cc in
        rw (whole, equal) (lines, refl, chain)
  ]

  -- What `verifyEmergency` accepts is a chain that fills the file.
  pub verify_store-Holds :
      (st : Store) → (verify_store p st).valid ≡ true → Holds (verify_store p st).records st
  unfolding verify_store
  verify_store-Holds st e =
      let (lines, whole, chain) = verify_files_valid st.ledger st.head_file e in
      record { lines = lines; whole = whole; chain = chain }

  verify_of_Chain :
      (rs : List LedgerRecord) (h : HeadFile)
      → Chain p rs
      → verify_files p (some (record { lines = map line rs; partial = false })) h
        ≡ check_head h (last_hash rs) rs
  unfolding verify_files
  verify_of_Chain rs h c = rw (scan_of_Chain p rs c)

  -- With one more line in its file a store holds one more record, whatever its head.
  verify_written :
      (rs : List LedgerRecord) (r : LedgerRecord) (st : Store) (h : HeadFile)
      → Holds rs st
      → Accepts p rs r
      → verify_files p (written st r).ledger h
        ≡ check_head h (last_hash (rs ++ r ∷ [])) (rs ++ r ∷ [])
  verify_written rs r st h holds a =
      let lines : lines_of st.ledger ++ line r ∷ [] ≡ map line (rs ++ r ∷ []) =
        rw (holds.lines, map-append) in
      rw lines (verify_of_Chain (rs ++ r ∷ []) h (chain_snoc rs r holds.chain a))

  -- The entry that `appendUnlocked` makes passes the checks of the reader.
  pub entry_for-Accepts :
      (rs : List LedgerRecord) (d : RecordData)
      → record_schema d ≡ true
      → admits (opened_ids rs) d ≡ true
      → Accepts p rs (entry_for p rs d)
  entry_for-Accepts rs d shaped admitted = record {
    shaped = shaped;
    linked = refl;
    hashed = refl;
    admitted = admitted;
  }

  -- A store whose checkpoint names its newest record. There is no file before the first record.
  pub record IsSynced (rs : List LedgerRecord) (st : Store) : Type 0 where
    pub holds : Holds rs st
    pub head_now : st.head_file ≡ head_of rs
    pub fresh : rs ≡ [] → st.ledger ≡ none

  -- A store whose writer stopped before the rename of the checkpoint for its newest record `r`.
  pub record IsLagging (rs : List LedgerRecord) (r : LedgerRecord) (st : Store) : Type 0 where
    pub holds : Holds (rs ++ r ∷ []) st
    pub head_before : st.head_file ≡ head_of rs

  published_head :
      (rs : List LedgerRecord) (r : LedgerRecord)
      → head r.hash (length rs + 1) ≡ head_of (rs ++ r ∷ [])
  published_head [] r = ground arith
  published_head (s ∷ rs) r = ground (arith, last_hash-snoc (s ∷ rs) r, length-append rs (r ∷ []))

  published-IsSynced :
      (rs : List LedgerRecord) (r : LedgerRecord) (st : Store)
      → Holds rs st
      → Accepts p rs r
      → IsSynced (rs ++ r ∷ []) (published st r (length rs + 1))
  published-IsSynced rs r st holds a = record {
    holds = record {
      lines = rw (holds.lines, map-append);
      whole = refl;
      chain = chain_snoc rs r holds.chain a;
    };
    head_now = published_head rs r;
    fresh = λ e. absurd (snoc-ne-nil rs r e);
  }

  verify_files_of_Chain :
      (file : Option LedgerFile) (r : LedgerRecord) (rs : List LedgerRecord) (h : HeadFile)
      → lines_of file ≡ map line (r ∷ rs)
      → is_torn file ≡ false
      → Chain p (r ∷ rs)
      → verify_files p file h ≡ check_head h (last_hash (r ∷ rs)) (r ∷ rs)
  unfolding verify_files
  verify_files_of_Chain none r rs h lines whole c = cc
  verify_files_of_Chain (some file) r rs h lines whole c =
      rw (whole, lines) (verify_of_Chain (r ∷ rs) h c)

  -- A store that is in step is accepted without a warning.
  pub verify_synced :
      (rs : List LedgerRecord) (st : Store) → IsSynced rs st → verify_store p st ≡ accepted rs []
  unfolding verify_store verify_files
  verify_synced [] st s = rw (s.fresh refl, s.head_now)
  verify_synced (r ∷ rs) st s = rw s.head_now (
      verify_files_of_Chain st.ledger r rs (head_of (r ∷ rs)) s.holds.lines s.holds.whole
        s.holds.chain
      ∙ check_head_synced r rs)

  verify_written_synced :
      (rs : List LedgerRecord) (r : LedgerRecord) (st : Store)
      → IsSynced rs st
      → Accepts p rs r
      → verify_store p (written st r) ≡ accepted (rs ++ r ∷ []) (head_behind ∷ [])
  unfolding verify_store
  verify_written_synced rs r st s a =
      verify_written rs r st st.head_file s.holds a ∙ rw s.head_now (check_head_lagging rs r)

  verify_written_lagging :
      (rs : List LedgerRecord) (r t : LedgerRecord) (st : Store)
      → IsLagging rs r st
      → Accepts p (rs ++ r ∷ []) t
      → verify_store p (written st t) ≡ invalid
  unfolding verify_store
  verify_written_lagging rs r t st s a =
      verify_written (rs ++ r ∷ []) t st st.head_file s.holds a
      ∙ rw (s.head_before, append_assoc) (check_head_two_behind rs r t)

  pub verify-Holds :
      (rs : List LedgerRecord) (ws : List Warning) (st : Store)
      → verify_store p st ≡ accepted rs ws
      → Holds rs st
  verify-Holds rs ws st e =
      let h : Holds (verify_store p st).records st = verify_store-Holds st (rw e) in rw e at h

  pub append_unlocked_lem :
      (d : RecordData) (st : Store) (rs : List LedgerRecord) (ws : List Warning)
      → verify_store p st ≡ accepted rs ws
      → record_schema d ≡ true
      → append_unlocked p d st
        ≡ (ok (entry_for p rs d), published st (entry_for p rs d) (length rs + 1))
  unfolding append_unlocked
  append_unlocked_lem d st rs ws e shaped = rw (shaped, e)

  pub append_unlocked-IsSynced :
      (d : RecordData) (st : Store) (rs : List LedgerRecord) (ws : List Warning)
      → verify_store p st ≡ accepted rs ws
      → record_schema d ≡ true
      → admits (opened_ids rs) d ≡ true
      → IsSynced (rs ++ entry_for p rs d ∷ []) (append_unlocked p d st).1
  append_unlocked-IsSynced d st rs ws e shaped admitted =
      rw (append_unlocked_lem d st rs ws e shaped) (
        published-IsSynced rs (entry_for p rs d) st (verify-Holds rs ws st e)
          (entry_for-Accepts rs d shaped admitted))

module _ (p : Platform) where
  scan_line-rejects :
      (s : Seen) (r : LedgerRecord)
      → admits s.grants r.content ≡ false
      → scan_line p s (line r) ≡ none
  unfolding scan_line
  scan_line-rejects s r e = ground arith

  -- A record of a kind that the reader does not admit makes it refuse the whole ledger.
  pub verify_rejected :
      (rs : List LedgerRecord) (d : RecordData) (st : Store) (n : ℕ)
      → Holds p rs st
      → admits (opened_ids rs) d ≡ false
      → verify_store p (published st (entry_for p rs d) n) ≡ invalid
  unfolding verify_store verify_files scan
  verify_rejected rs d st n h e =
      rw (h.lines, scan-append p start (map line rs) _ (scan_of_Chain p rs h.chain))
        (rw (scan_line-rejects (seen rs) (entry_for p rs d) e, scan))

-- If the ledger is accepted, the record has the schema's shape and the reader admits its kind, then
-- `appendUnlocked` returns the record chained to the newest one, and the reader accepts the old
-- records and the new one without a warning, also where it warned of the checkpoint before.
pub append_unlocked-verify :
    (p : Platform) (d : RecordData) (st : Store) (rs : List LedgerRecord) (ws : List Warning)
    → verify_store p st ≡ accepted rs ws
    → record_schema d ≡ true
    → admits (opened_ids rs) d ≡ true
    → ((append_unlocked p d st).0 ≡ ok (entry_for p rs d))
      × (verify_store p (append_unlocked p d st).1 ≡ accepted (rs ++ entry_for p rs d ∷ []) [])
append_unlocked-verify p d st rs ws e shaped admitted = (
  rw (append_unlocked_lem p d st rs ws e shaped),
  verify_synced p _ _ (append_unlocked-IsSynced p d st rs ws e shaped admitted),
)

-- A writer that stops between the append and the rename of the checkpoint: from a store in step it
-- leaves one that is accepted with the new record and the warning `emergency-head-behind`; from a
-- store that such a stop has left, it leaves one that is refused.
pub written-verify :
    (p : Platform) (rs : List LedgerRecord) (r t : LedgerRecord) (st : Store)
    → Accepts p rs r
    → Accepts p (rs ++ r ∷ []) t
    → IsSynced p rs st
    → (verify_store p (written st r) ≡ accepted (rs ++ r ∷ []) (head_behind ∷ []))
      × (verify_store p (written (written st r) t) ≡ invalid)
written-verify p rs r t st a b s = (
  verify_written_synced p rs r st s a,
  verify_written_lagging p rs r t (written st r)
      (record {
        holds = record {
          lines = rw (s.holds.lines, map-append);
          whole = refl;
          chain = chain_snoc rs r s.holds.chain a;
        };
        head_before = s.head_now;
      })
      b,
)

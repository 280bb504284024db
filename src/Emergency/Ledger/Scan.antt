-- ===== src/Emergency/Ledger/Scan.antt =====
-- What the loop of `verifyEmergency` has established when it does not throw.
use mathlib.Core.List.{append_assoc, append-nil, map-append}
use agent_context_broker.Prelude.{
  String, ◌≡◌, refl, sym, ◌∙◌, true, some, List, [], ◌∷◌, ◌++◌, map, arith, eq_iff, Option-cases,
  inl, inr,
}
use agent_context_broker.Platform.{Platform}
use agent_context_broker.Emergency.Record.{RecordData, opened, closed, used, record_schema}
use agent_context_broker.Emergency.Ledger.{
  LedgerRecord, Line, garbled, line, Seen, start, see, add_grant, admits, core_hash, scan_line,
  scan, last_hash,
}

-- The grants that a list of records opens, in order.
abbrev pub opened_ids : List LedgerRecord → List String
opened_ids [] = []
opened_ids (r ∷ rs) = add_grant [] r.content ++ opened_ids rs

-- The variables of the loop when its records are `rs`.
abbrev pub seen : List LedgerRecord → Seen
seen rs = record { previous = last_hash rs; grants = opened_ids rs; records = rs }

pub last_hash-snoc : (rs : List LedgerRecord) (r : LedgerRecord) → last_hash (rs ++ r ∷ []) ≡ r.hash
last_hash-snoc [] r = refl
last_hash-snoc (s ∷ []) r = refl
last_hash-snoc (s ∷ t ∷ rs) r = last_hash-snoc (t ∷ rs) r

add_grant-append : (gs : List String) (d : RecordData) → add_grant gs d ≡ gs ++ add_grant [] d
add_grant-append gs (opened r) = refl
add_grant-append gs (closed r) = sym (append-nil gs)
add_grant-append gs (used r) = sym (append-nil gs)

pub opened_ids-append :
    (rs ss : List LedgerRecord) → opened_ids (rs ++ ss) ≡ opened_ids rs ++ opened_ids ss
opened_ids-append [] ss = refl
opened_ids-append (r ∷ rs) ss = simp (opened_ids-append rs ss, append_assoc)

pub see-seen : (rs : List LedgerRecord) (r : LedgerRecord) → see (seen rs) r ≡ seen (rs ++ r ∷ [])
see-seen rs r =
    simp (last_hash-snoc, opened_ids-append, append-nil, add_grant-append (opened_ids rs) r.content)

module _ (p : Platform) where
  -- The checks on one record, after the records `rs`.
  pub record Accepts (rs : List LedgerRecord) (r : LedgerRecord) : Type 0 where
    pub shaped : record_schema r.content ≡ true
    pub linked : r.prev_hash ≡ last_hash rs
    pub hashed : r.hash ≡ core_hash p r.content r.prev_hash
    pub admitted : admits (opened_ids rs) r.content ≡ true

  scan_line-see :
      (rs : List LedgerRecord) (r : LedgerRecord) (s : Seen)
      → scan_line p (seen rs) (line r) ≡ some s
      → s ≡ see (seen rs) r
  unfolding scan_line
  scan_line-see rs r s h = ground arith

  scan_line-eq-some :
      (rs : List LedgerRecord) (l : Line) (s : Seen)
      → scan_line p (seen rs) l ≡ some s
      → (r : LedgerRecord) × (l ≡ line r) × (s ≡ seen (rs ++ r ∷ [])) × Accepts rs r
  unfolding scan_line
  scan_line-eq-some rs garbled s h = cc
  scan_line-eq-some rs (line r) s h = (
    r,
    refl,
    scan_line-see rs r s h ∙ see-seen rs r,
    ground (
      arith,
      eq_iff r.prev_hash (last_hash rs),
      eq_iff r.hash (core_hash p r.content r.prev_hash),
    ),
  )

  pub scan_line_of_Accepts :
      (rs : List LedgerRecord) (r : LedgerRecord)
      → Accepts rs r
      → scan_line p (seen rs) (line r) ≡ some (seen (rs ++ r ∷ []))
  unfolding scan_line
  scan_line_of_Accepts rs r a = rw (← see-seen rs r) (
      ground (
        arith,
        eq_iff r.prev_hash (last_hash rs),
        eq_iff r.hash (core_hash p r.content r.prev_hash),
      ))

  -- Every record is accepted after those in front of it.
  pub data Chain : List LedgerRecord → Type 0 where
    chain_nil : Chain []
    chain_snoc :
        (rs : List LedgerRecord) (r : LedgerRecord) → Chain rs → Accepts rs r → Chain (rs ++ r ∷ [])

  pub scan-append :
      (s : Seen) (ls ms : List Line) {t : Seen}
      → scan p s ls ≡ some t
      → scan p s (ls ++ ms) ≡ scan p t ms
  unfolding scan
  scan-append s [] ms h = ground arith
  scan-append s (l ∷ ls) ms h = elim (Option-cases (scan_line p s l)) [
    | inl e ↦ cc (rw (e, scan) at h)
    | inr (s', e) ↦ rw (e, scan) (scan-append s' ls ms (rw (e, scan) at h))
  ]

  scan-Chain :
      (rs : List LedgerRecord) (ls : List Line) (s : Seen)
      → Chain rs
      → scan p (seen rs) ls ≡ some s
      → (ss : List LedgerRecord) × (map line rs ++ ls ≡ map line ss) × (s ≡ seen ss) × Chain ss
  unfolding scan
  scan-Chain rs [] s c h = (rs, append-nil (map line rs), cc, c)
  scan-Chain rs (l ∷ ls) s c h = elim (Option-cases (scan_line p (seen rs) l)) [
    | inl e ↦ cc (rw (e, scan) at h)
    | inr (s', e) ↦
        let (r, is_line, is_seen, a) = scan_line-eq-some rs l s' e in
        let (ss, lines, same, chain) =
          scan-Chain (rs ++ r ∷ []) ls s (chain_snoc rs r c a)
            (rw is_seen at (rw (e, scan) at h)) in
        (ss, rw is_line (simp (map-append, append_assoc) at lines), same, chain)
  ]

  -- A file that is read to its end holds a chain, and nothing else.
  pub scan-start :
      (ls : List Line) (s : Seen)
      → scan p start ls ≡ some s
      → (rs : List LedgerRecord) × (ls ≡ map line rs) × (s ≡ seen rs) × Chain rs
  scan-start ls s h = scan-Chain [] ls s chain_nil h

  pub scan_of_Chain :
      (rs : List LedgerRecord) → Chain rs → scan p start (map line rs) ≡ some (seen rs)
  scan_of_Chain rs chain_nil = unfold scan in refl
  scan_of_Chain rs (chain_snoc ss r c a) = rw map-append (
      scan-append start (map line ss) (line r ∷ []) (scan_of_Chain ss c)
      ∙ (unfold scan in rw (scan_line_of_Accepts ss r a, scan)))

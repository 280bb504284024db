-- ===== src/ReadModel/Again.antt =====
-- A second projection of src/read-model.mts over the same events writes nothing.
use agent_context_broker.Prelude.{
  ◌≡◌, refl, ap, ◌∙◌, String, Bool, true, false, arith, eq_iff, Bool-cases, inl, inr, str_eq,
}
use agent_context_broker.Platform.{Platform}
use agent_context_broker.EventStore.Files.{Store}
use agent_context_broker.EventStore.Files as Files
use agent_context_broker.EventStore.Verify.{Verified, verify_store}
use agent_context_broker.ReadModel.Graph.{projection}
use agent_context_broker.ReadModel.{
  Manifest, ManifestFile, missing, no_json, no_manifest, manifest, OutputFiles, projected,
  verified_existing, manifest_of, nodes_text, edges_text, indexes_text, written_output,
  write_projection, is_current, project_over, project_store, project_read_model,
}

str_eq_refl : (s : String) → str_eq s s ≡ true
str_eq_refl s = ground (arith, eq_iff s s)

module _ (p : Platform) (below : String → String → Bool) where
  written-is_current :
      (v : Verified)
      → is_current p below v
          (written_output p below v (projection p below v.events))
          (manifest_of p below v (projection p below v.events))
        ≡ true
  unfolding verified_existing manifest_of
  written-is_current v =
      let g = projection p below v.events in
      rw
        (
          str_eq_refl v.tip.head_hash,
          str_eq_refl (p.sha256 (nodes_text p below g)),
          str_eq_refl (p.sha256 (edges_text p below g)),
          str_eq_refl (p.sha256 (indexes_text p below g)),
        )
        refl

  write-again :
      (v : Verified) (u : Bool) (m : Manifest)
      → (write_projection p below v).0 ≡ projected u m
      → project_over p below v
          (write_projection p below v).1
          (write_projection p below v).1.manifest_file
        ≡ (projected true m, (write_projection p below v).1)
  unfolding write_projection
  write-again v u m e =
      let g = projection p below v.events in
      let same : manifest_of p below v g ≡ m = ground arith in
      rw (written-is_current v) (ap (λ m. (projected true m, written_output p below v g)) same)

  over-again :
      (v : Verified) (out : OutputFiles) (f : ManifestFile) (u : Bool) (m : Manifest)
      → out.manifest_file ≡ f
      → (project_over p below v out f).0 ≡ projected u m
      → project_over p below v
          (project_over p below v out f).1
          (project_over p below v out f).1.manifest_file
        ≡ (projected true m, (project_over p below v out f).1)
  over-again v out missing u m same e = write-again v u m e
  over-again v out no_manifest u m same e = write-again v u m e
  over-again v out no_json u m same e = cc
  over-again v out (manifest k) u m same e = elim (Bool-cases (is_current p below v out k)) [
    | inr stale ↦ rw stale (write-again v u m (rw stale at e))
    | inl current ↦
        let kept : k ≡ m = ground (arith, current) in
        rw current (
          ap (project_over p below v out) same
          ∙ rw current (ap (λ m. (projected true m, out)) kept))
  ]

  store-again :
      (out : OutputFiles) (r : Files.Result Verified) (u : Bool) (m : Manifest)
      → (project_store p below out r).0 ≡ projected u m
      → project_store p below (project_store p below out r).1 r
        ≡ (projected true m, (project_store p below out r).1)
  store-again out (Files.err x) u m e = cc
  store-again out (Files.ok v) u m e = over-again v out out.manifest_file u m refl e

-- If `projectReadModel` gives a manifest, then a second call over the same event store gives that
-- manifest as unchanged and leaves the files as they are, whatever they held before the first.
pub project_read_model-again :
    (p : Platform) (below : String → String → Bool) (strict execute : Bool) (st : Store)
    (out : OutputFiles) (u : Bool) (m : Manifest)
    → (project_read_model p below strict execute st out).0 ≡ projected u m
    → project_read_model p below strict execute st
        (project_read_model p below strict execute st out).1
      ≡ (projected true m, (project_read_model p below strict execute st out).1)
unfolding project_read_model
project_read_model-again p below true execute st out u m e = cc
project_read_model-again p below false false st out u m e = cc
project_read_model-again p below false true st out u m e =
    store-again p below out (verify_store p st) u m e

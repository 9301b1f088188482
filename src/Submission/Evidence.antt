-- ===== src/Submission/Evidence.antt =====
-- service/src/submissions/service.ts: which evidence a submission may carry, and its payload.
use uvp_chain_services.Prelude.{
  String, Bool, true, false, Option, none, some, List, [], ◌∷◌, map, ◌==◌, ◌&&◌, length, truthy,
  join, keep, nat_eq, if◌then◌else◌, not, or_default, drop_two, distinct,
}
use uvp_chain_services.Prelude.Exec.{Outcome, pure, throw, ◌>>=◌, ◌>>◌, lift}
use uvp_chain_services.Submission.Types.{Evidence, EvidenceStatus, PreparedEvidence}
use uvp_chain_services.Submission.World.{Error, product, Document, HashInput, Env, Action}

-- The evidence service as one principal sees it, and the runtime's text functions that depend on
-- Unicode and on the locale.
pub record EvidenceReader : Type 0 where
  pub get_evidence : String → Outcome Error (Option Evidence)
  pub get_proof : String → Outcome Error (Option String)
  pub trim : String → String
  pub before : String → String → Bool

-- what the evidence of a submission must belong to
pub record Expected : Type 0 where
  pub order_id : String
  pub task_id : String
  pub stage_identifier : String

abbrev pub mismatch : Option String → String → Bool
mismatch found expected = truthy found && not (or_default found "" == expected)

abbrev pub is_usable : EvidenceStatus → Bool
is_usable EvidenceStatus.uploaded = true
is_usable EvidenceStatus.bound = true
is_usable _ = false

abbrev pub unless : Bool → Error → Action (Unit {0})
unless true e = throw e
unless false e = pure tt

unfoldable pub validate_evidence : Evidence → Expected → Action (Unit {0})
validate_evidence e x = do
  unless (not (is_usable e.status)) (product 409 "evidence_not_usable")
  unless (mismatch e.order_id x.order_id) (product 409 "evidence_order_mismatch")
  unless (mismatch e.task_id x.task_id) (product 409 "evidence_task_mismatch")
  unless (not (e.stage_identifier == x.stage_identifier)) (product 409 "evidence_stage_mismatch")

abbrev pub found_or : {A : Type 0} → Option A → Error → Action A
found_or none e = throw e
found_or (some a) e = pure a

module _ (reader : EvidenceReader) (expected : Expected) where
  unfoldable pub resolve_one : String → Action Evidence
  resolve_one id = do
    entry ← lift (reader.get_evidence id)
    record' ← found_or entry (product 404 "evidence_not_found")
    validate_evidence record' expected
    proof ← lift (reader.get_proof id)
    status ← found_or proof (product 404 "evidence_not_found")
    unless (not (status == "unbound") && not (status == "matched"))
        (product 409 "evidence_not_usable")
    pure record'

  unfoldable pub resolve_each : List String → Action (List Evidence)
  resolve_each [] = pure []
  resolve_each (id ∷ ids) = do first ← resolve_one id; rest ← resolve_each ids; pure (first ∷ rest)

  unfoldable pub unique_non_empty : List String → Action (List String)
  unique_non_empty ids =
      let trimmed = map reader.trim ids in
      let filled = keep (λ (s : String). not (s == "")) trimmed in
      if nat_eq (length filled) (length ids)
      then pure (distinct filled)
      else throw (product 400 "invalid_body")

  unfoldable pub resolve_evidence : List String → Action (List Evidence)
  resolve_evidence ids = do
    unless (nat_eq (length ids) 0) (product 400 "evidence_required")
    unique ← unique_non_empty ids
    resolve_each unique

unfoldable pub insert_document : (String → String → Bool) → Document → List Document → List Document
insert_document before x [] = x ∷ []
insert_document before x (y ∷ ys) =
    if before y.evidence_id x.evidence_id then y ∷ insert_document before x ys else x ∷ y ∷ ys

unfoldable pub sort_documents : (String → String → Bool) → List Document → List Document
unfolding insert_document
sort_documents before [] = []
sort_documents before (x ∷ xs) = insert_document before x (sort_documents before xs)

pub record Payload : Type 0 where
  pub payload_hash : String
  pub payload_ref : String

abbrev pub document_of : Evidence → Document
document_of e = record {
  evidence_id = e.evidence_id;
  payload_hash = e.payload_hash;
  payload_ref = e.payload_ref;
}

abbrev pub bundle_payload : Env → EvidenceReader → List Evidence → Payload
bundle_payload env reader evidence =
    let hash =
      env.hash (HashInput.bundle (sort_documents reader.before (map document_of evidence))) in
    record {
      payload_hash = hash;
      payload_ref = join "" ("uvp-evidence-bundle://product/" ∷ drop_two hash ∷ []);
    }

-- the payload of one piece of evidence is its own; several are bundled, sorted by identifier
unfoldable pub payload_for : Env → EvidenceReader → List Evidence → Payload
unfolding sort_documents join drop_two
payload_for env reader (e ∷ []) = record {
  payload_hash = e.payload_hash;
  payload_ref = e.payload_ref;
}
payload_for env reader evidence = bundle_payload env reader evidence

abbrev pub bound_text : EvidenceStatus → String
bound_text EvidenceStatus.bound = "matched"
bound_text _ = "unbound"

unfoldable pub evidence_summary : Evidence → PreparedEvidence
evidence_summary e = record {
  evidence_id = e.evidence_id;
  payload_hash = e.payload_hash;
  payload_ref = e.payload_ref;
  verification_status = bound_text e.status;
}

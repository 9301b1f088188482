-- ===== src/Chain/Earliest.antt =====
-- The proof of a submitted task, from proofs that arrive one by one or all at once.
use uvp_chain_services.Chain.Replay.{is_before}
use uvp_chain_services.Prelude.{
  String, some, List, [], ◌∷◌, ◌≡◌, arith, refl, if◌then◌else◌, ap, All, ◌∙◌, values, Option-cases,
  inl, sym, inr,
}
use uvp_chain_services.Chain.Pointers.{Sign}
use uvp_chain_services.Chain.Transitive.{
  IsOrder, IsIndexed, by_key-IsOrder, lexicographic-IsOrder, compare_chain_pointers-IsOrder,
}
use uvp_chain_services.Chain.Tasks.{
  Proof, TaskStatus, ChainTask, compare_proof_events, mark_task_submitted, earlier,
  mark_task_submitted_from_existing_signals, first_proof, marked, Order, matching_proofs, marked_by,
}

-- a proof whose transaction's position is known
abbrev pub IndexedProof : Type 0
IndexedProof = (p : Proof) × IsIndexed p.pointer

proofs-IsOrder :
    {locale : String → String → Sign}
    → IsOrder locale
    → IsOrder (λ (a b : IndexedProof). compare_proof_events locale a.0 b.0)
unfolding compare_proof_events
proofs-IsOrder o =
    lexicographic-IsOrder
      (by_key-IsOrder (λ (a : IndexedProof). (a.0.pointer, a.1)) (compare_chain_pointers-IsOrder o))
      (by_key-IsOrder (λ (a : IndexedProof). a.0.event_id) o)

abbrev pub submitted_with : ChainTask → Proof → ChainTask
submitted_with t p = record t { status = TaskStatus.submitted; updated_at = p; proof = p }

module _ (locale : String → String → Sign) where
  -- the task after proofs have arrived, one after the other
  unfoldable pub mark_all : ChainTask → List Proof → ChainTask
  mark_all t [] = t
  mark_all t (p ∷ ps) = mark_all (mark_task_submitted locale t p).0 ps

  module _ (o : IsOrder locale) where
    abbrev first_of : Proof → Proof → Proof
    first_of p q = if is_before (compare_proof_events locale q p) then q else p

    two_of : (p q : IndexedProof) → first_of p.0 q.0 ≡ earlier locale p.0 (some q.0)
    two_of p q =
        let c = proofs-IsOrder o in
        ground (
          arith,
          c.flip p q,
          c.flip q p,
          c.flip_after p q,
          c.flip_after q p,
          c.flip_same p q,
          c.flip_same q p,
        )

    three_of :
        (p q f : IndexedProof)
        → earlier locale (first_of p.0 q.0) (some f.0)
          ≡ earlier locale p.0 (some (earlier locale q.0 (some f.0)))
    three_of p q f =
        let c = proofs-IsOrder o in
        ground (
          arith,
          c.flip_after p q,
          c.flip q p,
          c.flip_after p f,
          c.flip f p,
          c.flip_after q f,
          c.flip f q,
          c.trans f q p,
          c.trans p q f,
          c.trans f p q,
          c.same_right f p q,
          c.flip_same q p,
          c.flip_after q p,
        )

    mark_submitted :
        (t : ChainTask) (p q : Proof)
        → (mark_task_submitted locale (submitted_with t p) q).0 ≡ submitted_with t (first_of p q)
    unfolding mark_task_submitted
    mark_submitted t p q = ground arith

    first_of-IsIndexed :
        (p q : Proof) → IsIndexed p.pointer → IsIndexed q.pointer → IsIndexed (first_of p q).pointer
    first_of-IsIndexed p q h k = ground (arith, h, k)

    first_proof-IsIndexed :
        (f : Proof) (ps : List Proof)
        → first_proof locale ps ≡ some f
        → All (λ q. IsIndexed q.pointer) ps
        → IsIndexed f.pointer
    unfolding first_proof
    first_proof-IsIndexed f [] e hs = cc
    first_proof-IsIndexed f (p ∷ ps) e (h, hs) = elim (Option-cases (first_proof locale ps)) [
      | inl e' ↦ ground (arith, e, e', h)
      | inr (g, e') ↦ ground (arith, e, e', h, first_proof-IsIndexed g ps e' hs)
    ]

    mark_all_submitted :
        (t : ChainTask) (p : Proof) (ps : List Proof)
        → IsIndexed p.pointer
        → All (λ q. IsIndexed q.pointer) ps
        → mark_all (submitted_with t p) ps
          ≡ submitted_with t (earlier locale p (first_proof locale ps))
    unfolding mark_all first_proof
    mark_all_submitted t p [] h hs = refl
    mark_all_submitted t p (q ∷ ps) h (k, ks) =
        ap (λ u. mark_all u ps) (mark_submitted t p q)
        ∙ mark_all_submitted t (first_of p q) ps (first_of-IsIndexed p q h k) ks
        ∙ ap (submitted_with t) (elim (Option-cases (first_proof locale ps)) [
          | inl e ↦ simp e (two_of (p, h) (q, k))
          | inr (f, e) ↦ simp e (three_of (p, h) (q, k) (f, first_proof-IsIndexed f ps e ks))
        ])

    mark_ready :
        (t : ChainTask) (p : Proof)
        → t.status ≡ TaskStatus.ready
        → (mark_task_submitted locale t p).0 ≡ submitted_with t p
    unfolding mark_task_submitted
    mark_ready t p h =
        ap (λ st. (marked t (submitted_with t p) (compare_proof_events locale p t.proof) st).0) h

    mark_all_ready :
        (t : ChainTask) (ps : List Proof)
        → t.status ≡ TaskStatus.ready
        → All (λ q. IsIndexed q.pointer) ps
        → mark_all t ps ≡ (marked_by locale t (first_proof locale ps)).0
    unfolding mark_all first_proof
    mark_all_ready t [] h hs = refl
    mark_all_ready t (p ∷ ps) h (k, ks) =
        ap (λ u. mark_all u ps) (mark_ready t p h)
        ∙ mark_all_submitted t p ps k ks
        ∙ sym (mark_ready t (earlier locale p (first_proof locale ps)) h)

    -- For a task that is ready, taking the proofs of the matching signals one by one as they arrive,
    -- in whatever order, gives the same task as looking all of them up at once and taking the
    -- earliest, where the positions of their transactions are known and the locale's comparison is
    -- an order.
    pub mark_all-existing :
        (order : Order) (t : ChainTask)
        → t.status ≡ TaskStatus.ready
        → let proofs = matching_proofs locale t (values order.signals) in
          All (λ q. IsIndexed q.pointer) proofs
          → mark_all t proofs ≡ (mark_task_submitted_from_existing_signals locale order t).0
    unfolding mark_task_submitted_from_existing_signals
    mark_all-existing order t h hs =
        mark_all_ready t (matching_proofs locale t (values order.signals)) h hs

-- ===== src/Mandate/Batch.antt =====
-- `create_batch` of cognitod/src/mandate.rs: its counts, and the mandates that it makes.
use linnix.Prelude.{
  ℕ, zero, suc, ◌+◌, ◌≡◌, ◌⊎◌, refl, none, some, List, [], ◌∷◌, map, length, take, length-take, min,
  arith, ap, inl, inr,
}
use linnix.Prelude.Results.{Result-split}
use linnix.BpfMap.{BpfHash}
use linnix.Mandate.Types.{MandateRequest, MandateResponse, CreateError}
use linnix.Mandate.Manager.{Moment, MandateManager, create}
use linnix.Mandate.Queries.{
  BatchMandateResult, create_each, create_batch, batch_item, max_batch_size,
}

-- The indices from `index` on.
abbrev pub count_from : ℕ → ℕ → List ℕ
count_from index zero = []
count_from index (suc n) = index ∷ count_from (index + 1) n

-- A result holds a mandate or an error, not both.
abbrev pub OneOf : BatchMandateResult → Type 0
OneOf r =
    ((r.mandate ≡ none) × ((e : CreateError) × (r.error ≡ some e)))
    ⊎ (((resp : MandateResponse) × (r.mandate ≡ some resp)) × (r.error ≡ none))

abbrev pub AllOneOf : List BatchMandateResult → Type 0
AllOneOf [] = Unit
AllOneOf (r ∷ rs) = OneOf r × AllOneOf rs

module _ (bpf : BpfHash) (Receipt : Type 0) (moments : ℕ → Moment) where
  create_each_lem :
      (index : ℕ) (reqs : List MandateRequest) (m : MandateManager bpf Receipt)
      → let each = (create_each bpf Receipt moments index reqs m).1 in
        (each.succeeded + each.failed ≡ length reqs)
        × (map (λ r. r.index) each.results ≡ count_from index (length reqs))
        × AllOneOf each.results
  unfolding create_each
  create_each_lem index [] m = (refl, refl, tt)
  create_each_lem index (req ∷ reqs) m =
      let created = create bpf Receipt (moments index) req m in
      let rest = create_each_lem (index + 1) reqs created.0 in
      elim (Result-split created.1) [
        | inl (e, failed) ↦
            rw (failed, batch_item)
              (ground (arith, rest.0), ap (λ t. index ∷ t) rest.1, (inl (refl, (e, refl)), rest.2))
        | inr (resp, made) ↦
            rw (made, batch_item)
              (
                ground (arith, rest.0),
                ap (λ t. index ∷ t) rest.1,
                (inr ((resp, refl), refl), rest.2),
              )
      ]

  -- `create_batch` works on the first 64 requests: its total is their number and the sum of its
  -- successes and failures, and its results are numbered from 0 on in order, each with a mandate or
  -- an error and not both.
  create_batch_lem :
      (requests : List MandateRequest) (m : MandateManager bpf Receipt)
      → let done = (create_batch bpf Receipt moments requests m).1 in
        (done.total ≡ min 64 (length requests))
        × (done.succeeded + done.failed ≡ done.total)
        × (map (λ r. r.index) done.results ≡ count_from 0 done.total)
        × AllOneOf done.results
  unfolding create_batch
  create_batch_lem requests m =
      let each = create_each_lem 0 (take max_batch_size requests) m in
      (length-take max_batch_size requests, each.0, each.1, each.2)

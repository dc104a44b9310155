-- ===== src/Worker/Store/Last.antt =====
-- The last operation and the last step of a store of backend/worker/foundationStore.js, where every
-- identifier has been given out in order.
use civitas.Prelude.{
  ℕ, ◌+◌, ◌<◌, ◌≤◌, ◌≡◌, refl, false, some, List, [], ◌∷◌, ◌++◌, any, All, length,
  update_first-snoc, any-snoc, arith,
}
use civitas.Worker.Store.{
  Operation, Step, Store, has_operation_id, has_step_id, update_operation, update_step,
}

-- Every identifier has been given out: none is above the number of entries.
pub record IsNumbered (store : Store) : Type 0 where
  pub operations_numbered : All (λ o. o.id ≤ length store.operations) store.operations
  pub steps_numbered : All (λ t. t.id ≤ length store.steps) store.steps

-- The store with one more operation and one more step.
abbrev pub with_last : Store → Operation → Step → Store
with_last store operation step = record store {
  operations = store.operations ++ operation ∷ [];
  steps = store.steps ++ step ∷ [];
}

no_operation_above :
    (n k : ℕ) (os : List Operation)
    → All (λ o. o.id ≤ n) os
    → n < k
    → any (has_operation_id k) os ≡ false
unfolding any
no_operation_above n k [] h p = refl
no_operation_above n k (o ∷ os) (q, h) p = ground (arith, no_operation_above n k os h p)

no_step_above :
    (n k : ℕ) (ts : List Step) → All (λ t. t.id ≤ n) ts → n < k → any (has_step_id k) ts ≡ false
unfolding any
no_step_above n k [] h p = refl
no_step_above n k (t ∷ ts) (q, h) p = ground (arith, no_step_above n k ts h p)

module _ (store : Store) (numbered : IsNumbered store) where
  pub update_operation-last :
      (f : Operation → Operation) (o : Operation) (t : Step) (id : ℕ)
      → o.id ≡ id
      → id ≡ length store.operations + 1
      → update_operation id f (with_last store o t) ≡ some (with_last store (f o) t)
  unfolding update_operation
  update_operation-last f o t id same last =
      let absent =
        no_operation_above (length store.operations) id store.operations
          numbered.operations_numbered (omega arith) in
      rw (
        any-snoc (has_operation_id id) store.operations o (ground arith),
        update_first-snoc (has_operation_id id) f store.operations o absent (ground arith),
      )

  pub update_step-last :
      (f : Step → Step) (o : Operation) (t : Step) (id : ℕ)
      → t.id ≡ id
      → id ≡ length store.steps + 1
      → update_step id f (with_last store o t) ≡ some (with_last store o (f t))
  unfolding update_step
  update_step-last f o t id same last =
      let absent =
        no_step_above (length store.steps) id store.steps numbered.steps_numbered (omega arith) in
      rw (
        any-snoc (has_step_id id) store.steps t (ground arith),
        update_first-snoc (has_step_id id) f store.steps t absent (ground arith),
      )

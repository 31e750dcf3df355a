-- ===== src/Optimistic.antt =====
-- frontend/src/utils/optimistic.ts. Each helper changes the list, waits for the server, and changes
-- the list again. `meanwhile` is what other code does to the list during the wait.
pub mod Rollback
mod Tests
use sumurai.Prelude.{Bool, not, List, [], ◌∷◌, ◌++◌, map, filter, if◌then◌else◌}
use sumurai.Prelude.Text.{Text, eq}
use sumurai.Http.{Thrown, Result, ok, throw}

module _ {T : Type 0} (id : T → Text) where
  unfoldable pub has_id : Text → T → Bool
  has_id i item = eq (id item) i

  unfoldable pub replace_item : Text → (T → T) → List T → List T
  replace_item i f prev = map (λ item. if has_id i item then f item else item) prev

  unfoldable pub without_item : Text → List T → List T
  without_item i prev = filter (λ item. not (has_id i item)) prev

  unfoldable pub finish_create : T → Result T → List T → List T × Result (Unit {0})
  finish_create temp_item (ok created) prev =
      (replace_item (id temp_item) (λ item. created) prev, ok tt)
  finish_create temp_item (throw e) prev = (without_item (id temp_item) prev, throw e)

  unfoldable pub optimistic_create :
      T → Result T → (List T → List T) → List T → List T × Result (Unit {0})
  optimistic_create temp_item reply meanwhile prev =
      finish_create temp_item reply (meanwhile (prev ++ temp_item ∷ []))

  pub finish_update : Text → List T → Result T → List T → List T × Result (Unit {0})
  finish_update i snapshot (ok updated) prev = (replace_item i (λ item. updated) prev, ok tt)
  finish_update i snapshot (throw e) prev = (snapshot, throw e)

  pub optimistic_update :
      Text → (T → T) → Result T → (List T → List T) → List T → List T × Result (Unit {0})
  optimistic_update i apply_local reply meanwhile prev =
      finish_update i prev reply (meanwhile (replace_item i apply_local prev))

  pub finish_delete : List T → Result (Unit {0}) → List T → List T × Result (Unit {0})
  finish_delete snapshot (ok done) prev = (prev, ok tt)
  finish_delete snapshot (throw e) prev = (snapshot, throw e)

  pub optimistic_delete :
      Text → Result (Unit {0}) → (List T → List T) → List T → List T × Result (Unit {0})
  optimistic_delete i reply meanwhile prev =
      finish_delete prev reply (meanwhile (without_item i prev))

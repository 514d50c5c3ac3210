-- ===== src/Wsnl/Transform.antt =====
-- wavelet/src/wsnl/transform.rs: nodes that transform batches of items.
pub mod Building
use wavelet_rs.Prelude.{
  ap, ◌≡◌, ◌≢◌, ◌↔◌, refl, sym, ◌∙◌, inl, inr, Bool, true, false, not, ◌||◌, List, [], ◌∷◌, ◌++◌,
  keep, if◌then◌else◌, append-nil, append_assoc, Bool-cases,
}
use wavelet_rs.Control.{Control, from_bool}

abbrev pub is_empty {ℓ} : {A : Type ℓ} → List A → Bool
is_empty [] = true
is_empty (x ∷ xs) = false

module _ {A S : Type 0} (fold_fn : S → A → S) where
  abbrev pub fold : S → List A → S
  fold this [] = this
  fold this (item ∷ items) = fold (fold_fn this item) items

  unfoldable pub accumulate_cycle : List A → S → Control × S
  accumulate_cycle parent this = (Control.broadcast, fold this parent)

  unfoldable pub accumulate_with_reset_cycle : S → List A → S → Control × S
  accumulate_with_reset_cycle default parent this = (Control.broadcast, fold default parent)

module _ {A : Type 0} (predicate : A → Bool) where
  unfoldable pub filter_cycle : List A → List A → Control × List A
  filter_cycle parent this =
      let this' = keep predicate parent in (from_bool (not (is_empty this')), this')

-- `seen.contains`, for the equality `eq` of the keys.
module _ {A K : Type 0} (eq : K → K → Bool) (key_fn : A → K) where
  abbrev pub member : K → List K → Bool
  member k [] = false
  member k (j ∷ ks) = eq k j || member k ks

  -- The loop, for the keys that have been seen and the items that are kept so far.
  unfoldable pub deduplicate_loop : List A → List K → List A → List A
  deduplicate_loop [] seen this = this
  deduplicate_loop (item ∷ items) seen this =
      let key = key_fn item in
      if member key seen
      then deduplicate_loop items seen this
      else deduplicate_loop items (key ∷ seen) (this ++ item ∷ [])

  unfoldable pub deduplicate_cycle : List A → List A → Control × List A
  unfolding deduplicate_loop
  deduplicate_cycle parent this =
      let this' = deduplicate_loop parent [] [] in (from_bool (not (is_empty this')), this')

  -- The items whose key is not a key of any item before, nor one of `seen`.
  abbrev pub first_of_key : List K → List A → List A
  first_of_key seen [] = []
  first_of_key seen (item ∷ items) =
      if member (key_fn item) seen
      then first_of_key (key_fn item ∷ seen) items
      else item ∷ first_of_key (key_fn item ∷ seen) items

  module _ (faithful : (k j : K) → eq k j ≡ true → k ≡ j) where
    member_again :
        (key k : K) (seen : List K) → member key seen ≡ true → member k (key ∷ seen) ≡ member k seen
    member_again key k seen h = elim (Bool-cases (eq k key)) [
      | inl same ↦ rw same (sym (ap (λ j. member j seen) (faithful k key same) ∙ h))
      | inr other ↦ rw other
    ]

    first_of_key_same :
        (s t : List K) (items : List A)
        → ((k : K) → member k s ≡ member k t)
        → first_of_key s items ≡ first_of_key t items
    first_of_key_same s t [] h = refl
    first_of_key_same s t (item ∷ items) h =
        let rest =
          first_of_key_same (key_fn item ∷ s) (key_fn item ∷ t) items
            (λ k. ap (λ b. eq k (key_fn item) || b) (h k)) in
        rw (h (key_fn item), rest)

    deduplicate_loop-first :
        (items : List A) (seen : List K) (this : List A)
        → deduplicate_loop items seen this ≡ this ++ first_of_key seen items
    unfolding deduplicate_loop
    deduplicate_loop-first [] seen this = sym (append-nil this)
    deduplicate_loop-first (item ∷ items) seen this =
        let key = key_fn item in
        elim (Bool-cases (member key seen)) [
          | inl old ↦
              rw (deduplicate_loop, old)
                (deduplicate_loop-first items seen this
                  ∙ ap (λ l. this ++ l)
                      (first_of_key_same seen (key ∷ seen) items
                        (λ k. sym (member_again key k seen old))))
          | inr new ↦
              rw (deduplicate_loop, new)
                (deduplicate_loop-first items (key ∷ seen) (this ++ item ∷ [])
                  ∙ append_assoc this (item ∷ []) (first_of_key (key ∷ seen) items))
        ]

    -- If equal keys are the same key, the node keeps exactly the first item of each key, in the
    -- order of the batch, whatever it held before.
    pub deduplicate_cycle-first :
        (parent this : List A) → (deduplicate_cycle parent this).1 ≡ first_of_key [] parent
    unfolding deduplicate_cycle
    deduplicate_cycle-first parent this = deduplicate_loop-first parent [] []

    -- It broadcasts just if the batch holds an item.
    broadcast_of : (l : List A) → (from_bool (not (is_empty l)) ≡ Control.broadcast) ↔ (l ≢ [])
    unfolding from_bool
    broadcast_of [] = ((λ e. cc), λ ne. absurd (ne refl))
    broadcast_of (x ∷ l) = ((λ _ e. cc), λ _. refl)

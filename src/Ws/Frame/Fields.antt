-- ===== src/Ws/Frame/Fields.antt =====
-- The fields of a payload: what splitFields keeps, in both notations.
use go_kis.Prelude.{
  ℕ, ◌≡◌, ◌≢◌, refl, ◌∙◌, true, false, List, [], ◌∷◌, ◌++◌, arith, ◌==◌, if◌then◌else◌, All,
}
use go_kis.Text.{Bytes, is_empty, contains_byte, split, split_push, join, join-split}
use go_kis.Ws.Frame.{drop_empty, split_fields}

-- A text with one byte taken out of it everywhere.
unfoldable pub without : ℕ → Bytes → Bytes
without b [] = []
without b (c ∷ s) = if c == b then without b s else c ∷ without b s

unfoldable pub concat : List Bytes → Bytes
concat [] = []
concat (x ∷ xs) = x ++ concat xs

concat-split_push : (c : ℕ) (xs : List Bytes) → concat (split_push c xs) ≡ c ∷ concat xs
unfolding concat split_push
concat-split_push c [] = refl
concat-split_push c (x ∷ xs) = refl

concat-split : (sep : ℕ) (s : Bytes) → concat (split sep s) ≡ without sep s
unfolding split without
concat-split sep [] = unfold concat in refl
concat-split sep (c ∷ s) =
    ground
      (arith, concat-cons_nil (split sep s), concat-split_push c (split sep s), concat-split sep s)
  where
    concat-cons_nil : (xs : List Bytes) → concat ([] ∷ xs) ≡ concat xs
    concat-cons_nil xs = unfold concat in refl

concat-drop_empty : (xs : List Bytes) → concat (drop_empty xs) ≡ concat xs
unfolding concat drop_empty is_empty
concat-drop_empty [] = refl
concat-drop_empty ([] ∷ xs) = concat-drop_empty xs
concat-drop_empty ((c ∷ x) ∷ xs) = rw (concat-drop_empty xs)

drop_empty-All : (xs : List Bytes) → All (λ x. x ≢ []) (drop_empty xs)
unfolding drop_empty is_empty
drop_empty-All [] = tt
drop_empty-All ([] ∷ xs) = drop_empty-All xs
drop_empty-All ((c ∷ x) ∷ xs) = ((λ e. cc), drop_empty-All xs)

-- A payload with a caret is split at every caret, pipes and empty fields included: joining the
-- fields by carets gives it back.
split_fields-caret :
    (payload : Bytes)
    → contains_byte b'^' payload ≡ true
    → join b'^' (split_fields payload) ≡ payload
unfolding split_fields
split_fields-caret payload h = rw (h, split_fields) (join-split b'^' payload)

-- A payload without a caret is split at the pipes: no field is empty, and the fields in order are
-- the payload less its pipes.
pub split_fields-pipe :
    (payload : Bytes)
    → contains_byte b'^' payload ≡ false
    → All (λ x. x ≢ []) (split_fields payload)
      × (concat (split_fields payload) ≡ without b'|' payload)
unfolding split_fields
split_fields-pipe payload h = (
  rw (h, split_fields) (drop_empty-All (split b'|' payload)),
  rw (h, split_fields) (concat-drop_empty (split b'|' payload) ∙ concat-split b'|' payload),
)

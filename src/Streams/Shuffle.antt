-- ===== src/Streams/Shuffle.antt =====
-- A list that two others make up, each in its order.
use the_operating_system.Common.{List, [], ◌∷◌, ◌++◌}

pub data Shuffle {ℓ} {A : Type ℓ} : List A → List A → List A → Type ℓ where
  empty : Shuffle [] [] []
  left : (a : A) {xs ys zs : List A} → Shuffle xs ys zs → Shuffle (a ∷ xs) ys (a ∷ zs)
  right : (a : A) {xs ys zs : List A} → Shuffle xs ys zs → Shuffle xs (a ∷ ys) (a ∷ zs)

module _ {ℓ} {A : Type ℓ} where
  pub Shuffle-left : (xs : List A) → Shuffle xs [] xs
  Shuffle-left [] = empty
  Shuffle-left (x ∷ xs) = left x (Shuffle-left xs)

  pub Shuffle-right : (ys : List A) → Shuffle [] ys ys
  Shuffle-right [] = empty
  Shuffle-right (y ∷ ys) = right y (Shuffle-right ys)

  pub append-left :
      {xs ys zs : List A} (more : List A) → Shuffle xs ys zs → Shuffle (xs ++ more) ys (zs ++ more)
  append-left more empty = Shuffle-left more
  append-left more (left a s) = left a (append-left more s)
  append-left more (right a s) = right a (append-left more s)

  pub append-right :
      {xs ys zs : List A} (more : List A) → Shuffle xs ys zs → Shuffle xs (ys ++ more) (zs ++ more)
  append-right more empty = Shuffle-right more
  append-right more (left a s) = left a (append-right more s)
  append-right more (right a s) = right a (append-right more s)

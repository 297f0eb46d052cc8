-- ===== src/Base/Orders.antt =====
-- What a loop gathers from results that come in another order.
use mathlib.Core.Path.{subst}
use mathlib.Core.List.{List, [], ◌∷◌, ◌++◌, append_assoc, Permᴰ}
use mathlib.Core.List.Permᴰ
use mathlib.Core.List.Permᴰ.{nil, cons, swap, trans}

module _ {A : Type 0} where
  exchange : (a b rest : List A) → Permᴰ (a ++ (b ++ rest)) (b ++ (a ++ rest))
  exchange a b rest =
      subst (λ xs. Permᴰ xs (b ++ (a ++ rest))) (append_assoc a b rest)
        (subst (λ xs. Permᴰ ((a ++ b) ++ rest) xs) (append_assoc b a rest)
          (Permᴰ.append_right rest (Permᴰ.append_comm a b)))

module _ {A B : Type 0} (f : A → List B) where
  -- `for … range received { out = append(out, f(x)...) }`
  abbrev pub gathered : List A → List B
  gathered [] = []
  gathered (x ∷ xs) = f x ++ gathered xs

  -- The same elements in another order give the same results in another order.
  pub gathered-Permᴰ : {xs ys : List A} → Permᴰ xs ys → Permᴰ (gathered xs) (gathered ys)
  gathered-Permᴰ nil = nil
  gathered-Permᴰ (cons {a = a} {l₁ = xs} {l₂ = ys} e d) =
      subst (λ b. Permᴰ (f a ++ gathered xs) (f b ++ gathered ys)) e
        (Permᴰ.append_left (f a) (gathered-Permᴰ d))
  gathered-Permᴰ (swap {a = a} {b = b} {a' = a'} {b' = b'} {l = l} e h) =
      subst (λ c. Permᴰ (f a ++ (f b ++ gathered l)) (f c ++ (f b' ++ gathered l))) h
        (subst (λ c. Permᴰ (f a ++ (f b ++ gathered l)) (f b ++ (f c ++ gathered l))) e
          (exchange (f a) (f b) (gathered l)))
  gathered-Permᴰ (trans d e) = trans (gathered-Permᴰ d) (gathered-Permᴰ e)

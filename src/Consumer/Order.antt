-- ===== src/Consumer/Order.antt =====
-- The rows of messages that come together, or in another order.
use mathlib.Core.List.{append_assoc, Permᴰ}
use mathlib.Core.List.Permᴰ
use nyc_taxi.Base.{String, ◌≡◌, refl, sym, subst, Option, none, some, List, [], ◌∷◌, ◌++◌}
use nyc_taxi.Python.{Dict, Result, ok, err}
use nyc_taxi.Consumer.{Ports, deserialize}
use nyc_taxi.Consumer.Persistence.{decoded, rows_of}

module _ (p : Ports) where
  pub rows_of-append :
      (left right : List String) → rows_of p (left ++ right) ≡ rows_of p left ++ rows_of p right
  rows_of-append [] right = refl
  rows_of-append (m ∷ left) right =
      rw (rows_of-append left right)
        (sym (append_assoc (decoded p (deserialize p m)) (rows_of p left) (rows_of p right)))

  -- The order in which messages are received does not matter but for the order of their rows.
  decoded-swap :
      (x y : Result (Option Dict)) (rest : List Dict)
      → Permᴰ (decoded p x ++ (decoded p y ++ rest)) (decoded p y ++ (decoded p x ++ rest))
  decoded-swap (ok (some a)) (ok (some b)) rest = Permᴰ.swap refl refl
  decoded-swap (ok (some a)) (ok none) rest = Permᴰ.refl (a ∷ rest)
  decoded-swap (ok (some a)) (err e) rest = Permᴰ.refl (a ∷ rest)
  decoded-swap (ok none) y rest = Permᴰ.refl (decoded p y ++ rest)
  decoded-swap (err e) y rest = Permᴰ.refl (decoded p y ++ rest)

  pub rows_of-Permᴰ : {ms ns : List String} → Permᴰ ms ns → Permᴰ (rows_of p ms) (rows_of p ns)
  rows_of-Permᴰ Permᴰ.nil = Permᴰ.nil
  rows_of-Permᴰ (Permᴰ.cons {a = m} {l₁ = ms} {l₂ = ns} e d) =
      subst (λ n. Permᴰ (rows_of p (m ∷ ms)) (rows_of p (n ∷ ns))) e
        (Permᴰ.append_left (decoded p (deserialize p m)) (rows_of-Permᴰ d))
  rows_of-Permᴰ (Permᴰ.swap {a = m} {b = n} {b' = q} {l = ms} e₁ e₂) =
      subst (λ k. Permᴰ (rows_of p (m ∷ n ∷ ms)) (rows_of p (k ∷ q ∷ ms))) e₂
        (subst (λ k. Permᴰ (rows_of p (m ∷ n ∷ ms)) (rows_of p (n ∷ k ∷ ms))) e₁
          (decoded-swap (deserialize p m) (deserialize p n) (rows_of p ms)))
  rows_of-Permᴰ (Permᴰ.trans d₁ d₂) = Permᴰ.trans (rows_of-Permᴰ d₁) (rows_of-Permᴰ d₂)

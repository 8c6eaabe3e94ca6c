-- ===== src/Settings/Laws.antt =====
-- Which environments give settings, and what these are then.
use nyc_taxi.Base.{
  some, inl, inr, Bool-cases, Option-cases, sym, subst, ap, Option, none, ℤ, ◌≤ℤ◌, String, ◌≡◌,
  refl, ◌↔◌, ◌⊎◌, true, arith, eq_iff,
}
use nyc_taxi.Settings.{
  Source, checked_int, int_field, text_field, or_invalid, validate_log_level, log_level_field,
  Checked, valid, invalid, ◌⊛◌, Bounds, unbounded, ge, ge_le, in_bounds, allowed, member,
}

abbrev pub IsValid {ℓ} : {A : Type ℓ} → Checked A → Type ℓ
IsValid {A} c = (a : A) × (c ≡ valid a)

pub valid-injective {ℓ} : {A : Type ℓ} {a b : A} → valid a ≡ valid b → a ≡ b
valid-injective h = cc (h)

pub IsValid-parts {ℓ κ} :
    {A : Type ℓ} {B : Type κ} (f : Checked (A → B)) (a : Checked A)
    → IsValid (f ⊛ a)
    → IsValid f × IsValid a
unfolding ◌⊛◌
IsValid-parts (valid f) (valid a) h = ((f, refl), (a, refl))
IsValid-parts (valid f) (invalid names) h = absurd (cc (h.1))
IsValid-parts (invalid names) (valid a) h = absurd (cc (h.1))
IsValid-parts (invalid names) (invalid more) h = absurd (cc (h.1))

-- What `ge` and `le` ask for.
abbrev pub InBounds : Bounds → ℤ → Type 0
InBounds unbounded n = Unit
InBounds (ge low) n = low ≤ℤ n
InBounds (ge_le low high) n = (low ≤ℤ n) × (n ≤ℤ high)

in_bounds_iff : (b : Bounds) (n : ℤ) → (in_bounds b n ≡ true) ↔ InBounds b n
in_bounds_iff unbounded n = (λ h. tt, λ h. refl)
in_bounds_iff (ge low) n = ground arith
in_bounds_iff (ge_le low high) n = ground arith

abbrev pub IsLevel : String → Type 0
IsLevel l = (l ≡ "DEBUG") ⊎ (l ≡ "INFO") ⊎ (l ≡ "WARNING") ⊎ (l ≡ "ERROR") ⊎ (l ≡ "CRITICAL")

member-IsLevel : (l : String) → (member l allowed ≡ true) ↔ IsLevel l
member-IsLevel l = ground (
  arith,
  eq_iff l "DEBUG",
  eq_iff l "INFO",
  eq_iff l "WARNING",
  eq_iff l "ERROR",
  eq_iff l "CRITICAL",
)

module _ (s : Source) where
  -- The variable, if it is set, is an integer within the bounds.
  abbrev pub IsGoodInt : String → Bounds → Type 0
  IsGoodInt alias bounds =
      (t : String) → s.variable alias ≡ some t → (n : ℤ) × (s.int_of t ≡ some n) × InBounds bounds n

  checked_int-valid :
      (alias : String) (bounds : Bounds) (o : Option ℤ) (n : ℤ)
      → checked_int s alias bounds o ≡ valid n
      → (o ≡ some n) × InBounds bounds n
  checked_int-valid alias bounds none n h = absurd (cc (h))
  checked_int-valid alias bounds (some m) n h = elim (Bool-cases (in_bounds bounds m)) [
    | inl inside ↦
        let same : m ≡ n = valid-injective (rw inside at h) in
        (ap some same, subst (InBounds bounds) same ((in_bounds_iff bounds m).0 inside))
    | inr outside ↦ absurd (cc (rw outside at h))
  ]

  pub int_field-InBounds :
      (alias : String) (bounds : Bounds) (default n : ℤ)
      → InBounds bounds default
      → int_field s alias bounds default ≡ valid n
      → InBounds bounds n
  unfolding int_field
  int_field-InBounds alias bounds default n fine h = elim (Option-cases (s.variable alias)) [
    | inl unset ↦ subst (InBounds bounds) (valid-injective (rw (unset, int_field) at h)) fine
    | inr (t, is_set) ↦
        (checked_int-valid alias bounds (s.int_of t) n (rw (is_set, int_field) at h)).1
  ]

  pub int_field_iff :
      (alias : String) (bounds : Bounds) (default : ℤ)
      → IsValid (int_field s alias bounds default) ↔ IsGoodInt alias bounds
  unfolding int_field
  int_field_iff alias bounds default = (
    λ (n, h) t is_set.
        let (read, inside) =
          checked_int-valid alias bounds (s.int_of t) n (rw (is_set, int_field) at h) in
        (n, read, inside),
    λ good. elim (Option-cases (s.variable alias)) [
      | inl unset ↦ (default, rw (unset, int_field) refl)
      | inr (t, is_set) ↦
          let (n, read, inside) = good t is_set in
          (n, rw (is_set, int_field, read, (in_bounds_iff bounds n).1 inside) refl)
    ],
  )

  pub text_field-IsValid : (alias default : String) → IsValid (text_field s alias default)
  unfolding text_field
  text_field-IsValid alias default = elim (Option-cases (s.variable alias)) [
    | inl unset ↦ (default, rw (unset, text_field) refl)
    | inr (t, is_set) ↦ (t, rw (is_set, text_field) refl)
  ]

  -- The level, if it is set, is one of the five in upper case.
  abbrev pub IsGoodLevel : Type 0
  IsGoodLevel = (t : String) → s.variable "LOG_LEVEL" ≡ some t → IsLevel (s.upper t)

  IsLevel-of-valid :
      (t l : String)
      → or_invalid s "LOG_LEVEL" (validate_log_level s t) ≡ valid l
      → (l ≡ s.upper t) × IsLevel l
  unfolding validate_log_level
  IsLevel-of-valid t l h = elim (Bool-cases (member (s.upper t) allowed)) [
    | inl known ↦
        let same : s.upper t ≡ l = valid-injective (rw known at h) in
        (sym same, subst IsLevel same ((member-IsLevel (s.upper t)).0 known))
    | inr unknown ↦ absurd (cc (rw unknown at h))
  ]

  pub log_level_field-IsLevel : (l : String) → log_level_field s ≡ valid l → IsLevel l
  unfolding log_level_field
  log_level_field-IsLevel l h = elim (Option-cases (s.variable "LOG_LEVEL")) [
    | inl unset ↦ subst IsLevel (valid-injective (rw (unset, log_level_field) at h)) (ground arith)
    | inr (t, is_set) ↦ (IsLevel-of-valid t l (rw (is_set, log_level_field) at h)).1
  ]

  pub log_level_field_iff : IsValid (log_level_field s) ↔ IsGoodLevel
  unfolding log_level_field validate_log_level
  log_level_field_iff = (
    λ (l, h) t is_set.
        let (same, level) = IsLevel-of-valid t l (rw (is_set, log_level_field) at h) in
        subst IsLevel same level,
    λ good. elim (Option-cases (s.variable "LOG_LEVEL")) [
      | inl unset ↦ ("INFO", rw (unset, log_level_field) refl)
      | inr (t, is_set) ↦ (
        s.upper t,
        rw (is_set, log_level_field, (member-IsLevel (s.upper t)).1 (good t is_set)) refl,
      )
    ],
  )

-- ===== src/Text/Laws.antt =====
-- The laws of `str` that the services use: equality, and that `strip` and `lower` settle at once.
use loglens_api.Base.{
  ℕ, ◌≡◌, refl, ap, ◌∙◌, ◌↔◌, true, false, [], ◌∷◌, arith, inl, inr, Bool-cases, All,
}
use loglens_api.Text.{Text, text_eq, is_space, lstrip, keep_char, rstrip, strip, lower_char, lower}

pub text_eq→eq : (s t : Text) → text_eq s t ≡ true → s ≡ t
unfolding text_eq
text_eq→eq [] [] h = refl
text_eq→eq [] (d ∷ t) h = cc
text_eq→eq (c ∷ s) [] h = cc
text_eq→eq (c ∷ s) (d ∷ t) h = ground (arith, text_eq→eq s t)

pub text_eq_refl : (s : Text) → text_eq s s ≡ true
unfolding text_eq
text_eq_refl [] = refl
text_eq_refl (c ∷ s) = ground (arith, text_eq_refl s)

pub text_eq_iff : (s t : Text) → (text_eq s t ≡ true) ↔ (s ≡ t)
text_eq_iff s t = (text_eq→eq s t, λ e. rw e (text_eq_refl t))

lstrip_idem : (s : Text) → lstrip (lstrip s) ≡ lstrip s
unfolding lstrip
lstrip_idem [] = refl
lstrip_idem (c ∷ s) = elim (Bool-cases (is_space c)) [
  | inl e ↦ rw e (lstrip_idem s)
  | inr e ↦ rw (e, lstrip) (rw e)
]

-- A text of no white space is its own `strip`.
lstrip_of_All :
    {P : ℕ → Type 0} (s : Text) → ((c : ℕ) → P c → is_space c ≡ false) → All P s → lstrip s ≡ s
unfolding lstrip
lstrip_of_All [] f h = refl
lstrip_of_All (c ∷ s) f h = rw (f c h.0)

keep_char_of_visible : (c : ℕ) (s : Text) → is_space c ≡ false → keep_char c s ≡ c ∷ s
unfolding keep_char
keep_char_of_visible c [] h = rw (h, keep_char)
keep_char_of_visible c (d ∷ s) h = refl

rstrip_of_All :
    {P : ℕ → Type 0} (s : Text) → ((c : ℕ) → P c → is_space c ≡ false) → All P s → rstrip s ≡ s
unfolding rstrip
rstrip_of_All [] f h = refl
rstrip_of_All (c ∷ s) f h = rw (rstrip_of_All s f h.1) (keep_char_of_visible c s (f c h.0))

pub strip_of_All :
    {P : ℕ → Type 0} (s : Text) → ((c : ℕ) → P c → is_space c ≡ false) → All P s → strip s ≡ s
unfolding strip
strip_of_All s f h = rw (lstrip_of_All s f h) (rstrip_of_All s f h)

rstrip-keep_char : (c : ℕ) (s : Text) → rstrip s ≡ s → rstrip (keep_char c s) ≡ keep_char c s
unfolding rstrip
rstrip-keep_char c [] h = elim (Bool-cases (is_space c)) [
  | inl e ↦ rw (e, keep_char)
  | inr e ↦ rw (e, keep_char) (rw (e, keep_char))
]
rstrip-keep_char c (d ∷ s) h = rw h

rstrip_idem : (s : Text) → rstrip (rstrip s) ≡ rstrip s
unfolding rstrip
rstrip_idem [] = refl
rstrip_idem (c ∷ s) = rstrip-keep_char c (rstrip s) (rstrip_idem s)

lstrip-keep_char : (c : ℕ) (s : Text) → is_space c ≡ false → lstrip (keep_char c s) ≡ keep_char c s
unfolding lstrip
lstrip-keep_char c s h = rw (keep_char_of_visible c s h) (rw h)

-- What begins with no white space still does when the end is cut.
lstrip-rstrip-lstrip : (s : Text) → lstrip (rstrip (lstrip s)) ≡ rstrip (lstrip s)
unfolding lstrip
lstrip-rstrip-lstrip [] = unfold rstrip in refl
lstrip-rstrip-lstrip (c ∷ s) = elim (Bool-cases (is_space c)) [
  | inl e ↦ rw e (lstrip-rstrip-lstrip s)
  | inr e ↦ rw e (unfold rstrip in lstrip-keep_char c (rstrip s) e)
]

pub strip_idem : (s : Text) → strip (strip s) ≡ strip s
unfolding strip
strip_idem s = rw (lstrip-rstrip-lstrip s) (rstrip_idem (lstrip s))

is_space-lower_char : (c : ℕ) → is_space (lower_char c) ≡ is_space c
unfolding is_space lower_char
is_space-lower_char c = ground arith

lstrip-lower : (s : Text) → lstrip (lower s) ≡ lower (lstrip s)
unfolding lstrip lower
lstrip-lower [] = refl
lstrip-lower (c ∷ s) = elim (Bool-cases (is_space c)) [
  | inl e ↦ rw (is_space-lower_char c, e) (lstrip-lower s)
  | inr e ↦ rw (is_space-lower_char c, e)
]

keep_char-lower : (c : ℕ) (s : Text) → keep_char (lower_char c) (lower s) ≡ lower (keep_char c s)
unfolding lower keep_char
keep_char-lower c [] = elim (Bool-cases (is_space c)) [
  | inl e ↦ rw (is_space-lower_char c, e, keep_char)
  | inr e ↦ rw (is_space-lower_char c, e, keep_char)
]
keep_char-lower c (d ∷ s) = refl

rstrip-lower : (s : Text) → rstrip (lower s) ≡ lower (rstrip s)
unfolding rstrip lower
rstrip-lower [] = unfold lower in refl
rstrip-lower (c ∷ s) = ap (keep_char (lower_char c)) (rstrip-lower s) ∙ keep_char-lower c (rstrip s)

pub strip-lower : (s : Text) → strip (lower s) ≡ lower (strip s)
unfolding strip
strip-lower s = rw (lstrip-lower s) (rstrip-lower (lstrip s))

lower_char_idem : (c : ℕ) → lower_char (lower_char c) ≡ lower_char c
unfolding lower_char
lower_char_idem c = ground arith

pub lower_idem : (s : Text) → lower (lower s) ≡ lower s
unfolding lower
lower_idem [] = refl
lower_idem (c ∷ s) = cc (lower_char_idem c, lower_idem s)

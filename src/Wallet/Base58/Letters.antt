-- ===== src/Wallet/Base58/Letters.antt =====
-- Digits as letters, and lists of them turned around.
use equiforge.Prelude.{
  ℕ, zero, suc, ◌+◌, ◌*◌, ◌<◌, ◌≡◌, refl, ap, ◌∙◌, sym, arith, Bool, true, false, inl, inr, ◌&&◌,
  List, [], ◌∷◌, ◌++◌, Option, none, some, get_or, All-append, ◌≢◌, replicate, nat_eq, ◌⊎◌,
}
use mathlib.Core.List.{reverse, reverse-cons}
use equiforge.Wallet.Base58.{base58_alphabet, letters, position}
use equiforge.Wallet.Base58.Radix.{number, low_first, AreDigits, IsTrimmed, IsHighest}

-- Each letter is found where it stands in the alphabet: a table, checked by evaluation.
is_at : ℕ → Option ℕ → Bool
is_at d none = false
is_at d (some e) = nat_eq e d

is_at_sound : (d : ℕ) (o : Option ℕ) → is_at d o ≡ true → o ≡ some d
unfolding is_at
is_at_sound d none h = absurd (cc)
is_at_sound d (some e) h = ground arith

is_found : ℕ → Bool
is_found d = is_at d (position (get_or base58_alphabet d 0) 0 base58_alphabet)

found_below : ℕ → Bool
found_below zero = true
found_below (suc n) = is_found n && found_below n

all_found : found_below 58 ≡ true
unfolding found_below is_found is_at position
all_found = refl

found_below-lt : (n d : ℕ) → found_below n ≡ true → d < n → is_found d ≡ true
unfolding found_below
found_below-lt zero d h k = absurd (omega arith)
found_below-lt (suc n) d h k = elim (here n d k) [
  | inl same ↦ rw same (ground arith)
  | inr below ↦ found_below-lt n d (ground arith) below
]
  where
    here : (n d : ℕ) → d < suc n → (d ≡ n) ⊎ (d < n)
    here n d k = ground arith

pub position-letter :
    (d : ℕ) → d < 58 → position (get_or base58_alphabet d 0) 0 base58_alphabet ≡ some d
unfolding is_found
position-letter d small =
    is_at_sound d (position (get_or base58_alphabet d 0) 0 base58_alphabet)
      (found_below-lt 58 d all_found small)

snoc-replicate : (n a : ℕ) → replicate n a ++ (a ∷ []) ≡ a ∷ replicate n a
snoc-replicate zero a = refl
snoc-replicate (suc n) a = ap (λ t. a ∷ t) (snoc-replicate n a)

pub reverse-replicate : (n a : ℕ) → reverse (replicate n a) ≡ replicate n a
reverse-replicate zero a = refl
reverse-replicate (suc n) a =
    reverse-cons a (replicate n a)
    ∙ ap (λ t. t ++ (a ∷ [])) (reverse-replicate n a)
    ∙ snoc-replicate n a

letters-append : (ds es : List ℕ) → letters (ds ++ es) ≡ letters ds ++ letters es
unfolding letters
letters-append [] es = refl
letters-append (d ∷ ds) es = ap (λ t. get_or base58_alphabet d 0 ∷ t) (letters-append ds es)

pub reverse-letters : (ds : List ℕ) → reverse (letters ds) ≡ letters (reverse ds)
unfolding letters
reverse-letters [] = refl
reverse-letters (d ∷ ds) =
    let last = get_or base58_alphabet d 0 in
    reverse-cons last (letters ds)
    ∙ ap (λ t. t ++ (last ∷ [])) (reverse-letters ds)
    ∙ sym (letters-append (reverse ds) (d ∷ []))
    ∙ ap letters (sym (reverse-cons d ds))

number-append : (q : ℕ) (ds es : List ℕ) → number q (ds ++ es) ≡ number (number q ds) es
unfolding number
number-append q [] es = refl
number-append q (d ∷ ds) es = number-append (q * 58 + d) ds es

pub number-reverse : (ds : List ℕ) → number 0 (reverse ds) ≡ low_first ds
unfolding number
number-reverse [] = refl
number-reverse (d ∷ ds) =
    let high = number-reverse ds in
    ap (number 0) (reverse-cons d ds) ∙ number-append 0 (reverse ds) (d ∷ []) ∙ omega (arith, high)

pub AreDigits-reverse : (ds : List ℕ) → AreDigits ds → AreDigits (reverse ds)
AreDigits-reverse [] h = tt
AreDigits-reverse (d ∷ ds) (small, h) =
    rw (reverse-cons d ds)
      (All-append (λ d. d < 58) (reverse ds) (d ∷ []) (AreDigits-reverse ds h) (small, tt))

IsTrimmed-append : (ds es : List ℕ) → IsTrimmed ds → ds ≢ [] → IsTrimmed (ds ++ es)
IsTrimmed-append [] es h some_there = absurd (some_there refl)
IsTrimmed-append (d ∷ ds) es h some_there = h

snoc-ne-nil : (ds : List ℕ) (d : ℕ) → ds ++ (d ∷ []) ≢ []
snoc-ne-nil [] d e = cc
snoc-ne-nil (x ∷ ds) d e = cc

pub IsTrimmed-reverse : (ds : List ℕ) → IsHighest ds → IsTrimmed (reverse ds)
IsTrimmed-reverse [] h = tt
IsTrimmed-reverse (d ∷ []) h = h
IsTrimmed-reverse (d ∷ e ∷ ds) h = rw (reverse-cons d (e ∷ ds)) (
    IsTrimmed-append (reverse (e ∷ ds)) (d ∷ []) (IsTrimmed-reverse (e ∷ ds) h)
      (λ none_there. snoc-ne-nil (reverse ds) e (sym (reverse-cons e ds) ∙ none_there)))

-- ===== src/Sfs/Layout/Strings.antt =====
-- Bytes of a block, and the C strings in it.
use ecse.Common.{
  ℕ, zero, suc, ◌+◌, ◌/◌, ◌%◌, ◌<◌, ◌≡◌, ◌≢◌, refl, true, inl, inr, [], ◌∷◌, arith, ◌==◌,
  if◌then◌else◌, All, length, Bool-cases, eq_of_eqb, ne_of_eqb,
}
use ecse.Storage.{Block}
use ecse.Sfs.Layout.{Name, byte_of, set_byte_of, byte, set_byte, strcpy, strcmp_eq, clear_words}

byte_of-set_self : (w r v : ℕ) → v < 256 → r < 4 → byte_of (set_byte_of w r v) r ≡ v
unfolding byte_of set_byte_of
byte_of-set_self w zero v h q = omega arith
byte_of-set_self w (suc zero) v h q = omega arith
byte_of-set_self w (suc (suc zero)) v h q = omega arith
byte_of-set_self w (suc (suc (suc r))) v h q = omega arith

byte_of-set_ne :
    (w r q v : ℕ) → v < 256 → r < 4 → q < 4 → q ≢ r → byte_of (set_byte_of w r v) q ≡ byte_of w q
unfolding byte_of set_byte_of
byte_of-set_ne w zero zero v h p q ne = absurd (ne refl)
byte_of-set_ne w zero (suc zero) v h p q ne = omega arith
byte_of-set_ne w zero (suc (suc zero)) v h p q ne = omega arith
byte_of-set_ne w zero (suc (suc (suc x))) v h p q ne = omega arith
byte_of-set_ne w (suc zero) zero v h p q ne = omega arith
byte_of-set_ne w (suc zero) (suc zero) v h p q ne = absurd (ne refl)
byte_of-set_ne w (suc zero) (suc (suc zero)) v h p q ne = omega arith
byte_of-set_ne w (suc zero) (suc (suc (suc x))) v h p q ne = omega arith
byte_of-set_ne w (suc (suc zero)) zero v h p q ne = omega arith
byte_of-set_ne w (suc (suc zero)) (suc zero) v h p q ne = omega arith
byte_of-set_ne w (suc (suc zero)) (suc (suc zero)) v h p q ne = absurd (ne refl)
byte_of-set_ne w (suc (suc zero)) (suc (suc (suc x))) v h p q ne = omega arith
byte_of-set_ne w (suc (suc (suc r))) zero v h p q ne = omega arith
byte_of-set_ne w (suc (suc (suc r))) (suc zero) v h p q ne = omega arith
byte_of-set_ne w (suc (suc (suc r))) (suc (suc zero)) v h p q ne = omega arith
byte_of-set_ne w (suc (suc (suc r))) (suc (suc (suc x))) v h p q ne = absurd (omega arith)

-- A byte that is written is read back, and no other byte changes.
pub byte-set_byte :
    (b : Block) (o p v : ℕ) → v < 256 → byte (set_byte b o v) p ≡ (if p == o then v else byte b p)
unfolding byte set_byte
byte-set_byte b o p v h = elim (Bool-cases (p == o)) [
  | inl same ↦
      let e : p ≡ o = eq_of_eqb p o same in
      rw (same, e) (ground (arith, byte_of-set_self (b (o / 4)) (o % 4) v))
  | inr other ↦ rw other (elim (Bool-cases (p / 4 == o / 4)) [
    | inl word ↦
        let e : p / 4 ≡ o / 4 = eq_of_eqb (p / 4) (o / 4) word in
        let ne : p % 4 ≢ o % 4 = λ q. ne_of_eqb p o other (omega arith) in
        rw (word, e) (byte_of-set_ne (b (o / 4)) (o % 4) (p % 4) v h (omega arith) (omega arith) ne)
    | inr word ↦ rw word
  ])
]

-- `strcpy` to an offset leaves the bytes and the words before it.
pub byte-strcpy_below :
    (b : Block) (o p : ℕ) (name : Name)
    → All (λ c. c < 256) name
    → p < o
    → byte (strcpy b o name) p ≡ byte b p
unfolding strcpy
byte-strcpy_below b o p [] h lt = ground (arith, byte-set_byte b o p 0)
byte-strcpy_below b o p (c ∷ cs) h lt =
    ground (arith, byte-strcpy_below (set_byte b o c) (o + 1) p cs h.1, byte-set_byte b o p c h.0)

pub word-strcpy_below : (b : Block) (o k : ℕ) (name : Name) → k < o / 4 → strcpy b o name k ≡ b k
unfolding strcpy set_byte
word-strcpy_below b o k [] lt = ground arith
word-strcpy_below b o k (c ∷ cs) lt =
    ground (arith, word-strcpy_below (set_byte b o c) (o + 1) k cs)

-- `strcmp` finds equal what `strcpy` has written.
pub strcmp_eq-strcpy :
    (b : Block) (o : ℕ) (name : Name)
    → All (λ c. c < 256) name
    → strcmp_eq name (strcpy b o name) o ≡ true
unfolding strcpy strcmp_eq
strcmp_eq-strcpy b o [] h = ground (arith, byte-set_byte b o o 0)
strcmp_eq-strcpy b o (c ∷ cs) h = ground (
  arith,
  byte-strcpy_below (set_byte b o c) (o + 1) o cs h.1,
  byte-set_byte b o o c h.0,
  strcmp_eq-strcpy (set_byte b o c) (o + 1) cs h.1,
)

-- A comparison reads no byte behind the length of the name.
pub strcmp_eq-agree :
    (name : Name) (b g : Block) (o end : ℕ)
    → ((p : ℕ) → p < end → byte g p ≡ byte b p)
    → o + length name < end
    → strcmp_eq name g o ≡ strcmp_eq name b o
unfolding strcmp_eq
strcmp_eq-agree [] b g o end same lt = rw (same o (omega arith))
strcmp_eq-agree (c ∷ cs) b g o end same lt =
    rw (same o (omega arith), strcmp_eq-agree cs b g (o + 1) end same (omega arith))

pub byte-clear_below : (b : Block) (k n p : ℕ) → p / 4 < k → byte (clear_words b k n) p ≡ byte b p
unfolding byte
byte-clear_below b k n p lt = ground arith

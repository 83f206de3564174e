-- ===== src/Sfs/Reading/Texts.antt =====
-- What `strncpy` into a block leaves, and `strncpy` out of it brings back.
use ecse.Common.{
  ℕ, zero, suc, ◌+◌, ◌<◌, ◌≡◌, refl, ap, ◌∙◌, false, ◌==◌, if◌then◌else◌, arith, eqb_of_ne,
  eqb_of_eq,
}
use ecse.Storage.{Block}
use ecse.Sfs.Layout.{byte, set_byte}
use ecse.Sfs.Layout.Strings.{byte-set_byte}
use ecse.Sfs.Content.{strncpy}
use ecse.Sfs.Reading.{copy_text}

-- The first bytes of a buffer are bytes, and none of them is NUL.
pub record IsTextOf (buf : ℕ → ℕ) (k n : ℕ) : Type 0 where
  pub bytes : (l : ℕ) → l < n → buf (k + l) < 256
  pub nonzero : (l : ℕ) → l < n → (buf (k + l) == 0) ≡ false

IsTextOf-suc : (buf : ℕ → ℕ) (k n : ℕ) → IsTextOf buf k (suc n) → IsTextOf buf (k + 1) n
IsTextOf-suc buf k n h =
    let there : (l : ℕ) → k + suc l ≡ k + 1 + l = λ l. omega arith in
    record {
      bytes = λ l q. rw (← there l) (h.bytes (suc l) (omega arith));
      nonzero = λ l q. rw (← there l) (h.nonzero (suc l) (omega arith));
    }

strncpy_step :
    (b : Block) (o k n : ℕ) (buf : ℕ → ℕ)
    → (buf k == 0) ≡ false
    → strncpy b o buf k false (suc n) ≡ strncpy (set_byte b o (buf k)) (o + 1) buf (k + 1) false n
unfolding strncpy
strncpy_step b o k n buf e = rw (strncpy, e) refl

strncpy_below :
    (n : ℕ) (b : Block) (o k p : ℕ) (buf : ℕ → ℕ)
    → IsTextOf buf k n
    → p < o
    → byte (strncpy b o buf k false n) p ≡ byte b p
unfolding strncpy
strncpy_below zero b o k p buf h lt = refl
strncpy_below (suc n) b o k p buf h lt =
    let here : k + 0 ≡ k = omega arith in
    let nonzero : (buf k == 0) ≡ false = rw (← here) (h.nonzero 0 (omega arith)) in
    let small : buf k < 256 = rw (← here) (h.bytes 0 (omega arith)) in
    ap (λ (g : Block). byte g p) (strncpy_step b o k n buf nonzero)
    ∙ strncpy_below n (set_byte b o (buf k)) (o + 1) (k + 1) p buf (IsTextOf-suc buf k n h)
        (omega arith)
    ∙ byte-set_byte b o p (buf k) small
    ∙ rw (eqb_of_ne p o (λ e. absurd (omega arith))) refl

-- The bytes of the block from `o` on are those of the buffer from `k` on.
pub byte-strncpy :
    (n l : ℕ) (b : Block) (o k : ℕ) (buf : ℕ → ℕ)
    → IsTextOf buf k n
    → l < n
    → byte (strncpy b o buf k false n) (o + l) ≡ buf (k + l)
byte-strncpy zero l b o k buf h lt = absurd (omega arith)
byte-strncpy (suc n) zero b o k buf h lt =
    let here : (m : ℕ) → m + 0 ≡ m = λ m. omega arith in
    let nonzero : (buf k == 0) ≡ false = rw (← here k) (h.nonzero 0 (omega arith)) in
    let small : buf k < 256 = rw (← here k) (h.bytes 0 (omega arith)) in
    rw (here o, here k)
      (ap (λ (g : Block). byte g o) (strncpy_step b o k n buf nonzero)
        ∙ strncpy_below n (set_byte b o (buf k)) (o + 1) (k + 1) o buf (IsTextOf-suc buf k n h)
            (omega arith)
        ∙ byte-set_byte b o o (buf k) small
        ∙ rw (eqb_of_eq o o refl) refl)
byte-strncpy (suc n) (suc l) b o k buf h lt =
    let there : (m : ℕ) → m + suc l ≡ m + 1 + l = λ m. omega arith in
    let here : k + 0 ≡ k = omega arith in
    let nonzero : (buf k == 0) ≡ false = rw (← here) (h.nonzero 0 (omega arith)) in
    rw (there o, there k)
      (ap (λ (g : Block). byte g (o + 1 + l)) (strncpy_step b o k n buf nonzero)
        ∙ byte-strncpy n l (set_byte b o (buf k)) (o + 1) (k + 1) buf (IsTextOf-suc buf k n h)
            (omega arith))

copy_step :
    (n k o : ℕ) (b : Block) (buf : ℕ → ℕ)
    → (byte b o == 0) ≡ false
    → copy_text (suc n) k false b o buf
      ≡ copy_text n (k + 1) false b (o + 1) (λ i. if i == k then byte b o else buf i)
unfolding copy_text
copy_step n k o b buf e = rw (copy_text, e) refl

copy_below :
    (n k o i : ℕ) (b : Block) (buf : ℕ → ℕ)
    → ((l : ℕ) → l < n → (byte b (o + l) == 0) ≡ false)
    → i < k
    → copy_text n k false b o buf i ≡ buf i
unfolding copy_text
copy_below zero k o i b buf h lt = refl
copy_below (suc n) k o i b buf h lt =
    let here : o + 0 ≡ o = omega arith in
    let there : (l : ℕ) → o + suc l ≡ o + 1 + l = λ l. omega arith in
    let nonzero : (byte b o == 0) ≡ false = rw (← here) (h 0 (omega arith)) in
    ap (λ (f : ℕ → ℕ). f i) (copy_step n k o b buf nonzero)
    ∙ copy_below n (k + 1) (o + 1) i b _ (λ l q. rw (← there l) (h (suc l) (omega arith)))
        (omega arith)
    ∙ rw (eqb_of_ne i k (λ e. absurd (omega arith))) refl

-- The buffer from `k` on has the bytes of the block from `o` on.
pub copy_text-byte :
    (n l k o : ℕ) (b : Block) (buf : ℕ → ℕ)
    → ((l : ℕ) → l < n → (byte b (o + l) == 0) ≡ false)
    → l < n
    → copy_text n k false b o buf (k + l) ≡ byte b (o + l)
copy_text-byte zero l k o b buf h lt = absurd (omega arith)
copy_text-byte (suc n) zero k o b buf h lt =
    let here : (m : ℕ) → m + 0 ≡ m = λ m. omega arith in
    let there : (l : ℕ) → o + suc l ≡ o + 1 + l = λ l. omega arith in
    let nonzero : (byte b o == 0) ≡ false = rw (← here o) (h 0 (omega arith)) in
    rw (here o, here k)
      (ap (λ (f : ℕ → ℕ). f k) (copy_step n k o b buf nonzero)
        ∙ copy_below n (k + 1) (o + 1) k b _ (λ l q. rw (← there l) (h (suc l) (omega arith)))
            (omega arith)
        ∙ rw (eqb_of_eq k k refl) refl)
copy_text-byte (suc n) (suc l) k o b buf h lt =
    let here : o + 0 ≡ o = omega arith in
    let there : (m l : ℕ) → m + suc l ≡ m + 1 + l = λ m l. omega arith in
    let nonzero : (byte b o == 0) ≡ false = rw (← here) (h 0 (omega arith)) in
    rw (there o l, there k l)
      (ap (λ (f : ℕ → ℕ). f (k + 1 + l)) (copy_step n k o b buf nonzero)
        ∙ copy_text-byte n l (k + 1) (o + 1) b _ (λ l q. rw (← there o l) (h (suc l) (omega arith)))
            (omega arith))

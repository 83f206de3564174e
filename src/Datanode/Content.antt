-- ===== src/Datanode/Content.antt =====
-- `strcpy` from one block's content to another's, which the datanode and the client read blocks by.
use ecse.Common.{
  ℕ, zero, suc, ◌+◌, ◌<◌, ◌≤◌, ◌≡◌, refl, sym, ap, ◌∙◌, false, none, some, done, undefined, arith,
  leb, ◌==◌, if◌then◌else◌, leb_of_le,
}
use ecse.Datanode.{Content, first_nul, strcpy_content}

-- The first NUL of a block's content is at `n`.
pub record EndsAt (buf : Content) (n : ℕ) : Type 0 where
  pub inside : n < 1024
  pub nul : buf n ≡ 0
  pub before : (k : ℕ) → k < n → (buf k == 0) ≡ false

first_nul_skip :
    (n k : ℕ) (buf : Content)
    → (buf k == 0) ≡ false
    → first_nul (suc n) k buf ≡ first_nul n (k + 1) buf
unfolding first_nul
first_nul_skip n k buf e = rw (e, first_nul) refl

first_nul_here : (n k : ℕ) (buf : Content) → buf k ≡ 0 → first_nul (suc n) k buf ≡ some k
unfolding first_nul
first_nul_here n k buf e = rw (e, first_nul) refl

first_nul_hit :
    (m n k : ℕ) (buf : Content)
    → m < n
    → buf (k + m) ≡ 0
    → ((l : ℕ) → l < m → (buf (k + l) == 0) ≡ false)
    → first_nul n k buf ≡ some (k + m)
first_nul_hit m zero k buf lt e w = absurd (omega arith)
first_nul_hit zero (suc n) k buf lt e w =
    let here : k + 0 ≡ k = omega arith in rw here (first_nul_here n k buf (rw (← here) e))
first_nul_hit (suc m) (suc n) k buf lt e w =
    let here : k + 0 ≡ k = omega arith in
    let there : (l : ℕ) → k + suc l ≡ k + 1 + l = λ l. omega arith in
    let rest =
      first_nul_hit m n (k + 1) buf (omega arith) (rw (← there m) e)
        (λ l q. rw (← there l) (w (suc l) (omega arith))) in
    first_nul_skip n k buf (rw (← here) (w 0 (omega arith)))
    ∙ rest
    ∙ ap (λ l. some l) (sym (there m))

-- The text up to its NUL is copied.
pub strcpy_content-EndsAt :
    (to from : Content) (n : ℕ)
    → EndsAt from n
    → (content : Content) × (strcpy_content to from ≡ done content)
      × EndsAt content n
      × ((k : ℕ) → k ≤ n → content k ≡ from k)
unfolding strcpy_content
strcpy_content-EndsAt to from n h =
    let start : (k : ℕ) → 0 + k ≡ k = λ k. omega arith in
    let found : first_nul 1024 0 from ≡ some n =
      first_nul_hit n 1024 0 from h.inside (rw (start n) h.nul) (λ l q. rw (start l) (h.before l q))
      ∙ ap (λ k. some k) (start n) in
    let copy : (k : ℕ) → k ≤ n → (if leb k n then from k else to k) ≡ from k =
      λ k q. rw (leb_of_le k n q) refl in
    (
      λ k. if leb k n then from k else to k,
      rw (found, strcpy_content) refl,
      record {
        inside = h.inside;
        nul = copy n (omega arith) ∙ h.nul;
        before = λ k q. rw (copy k (omega arith)) (h.before k q);
      },
      copy,
    )

first_nul_zero : (k : ℕ) (buf : Content) → first_nul 0 k buf ≡ none
unfolding first_nul
first_nul_zero k buf = refl

first_nul_miss :
    (n k : ℕ) (buf : Content)
    → ((l : ℕ) → l < n → (buf (k + l) == 0) ≡ false)
    → first_nul n k buf ≡ none
first_nul_miss zero k buf w = first_nul_zero k buf
first_nul_miss (suc n) k buf w =
    let here : k + 0 ≡ k = omega arith in
    let there : (l : ℕ) → k + suc l ≡ k + 1 + l = λ l. omega arith in
    first_nul_skip n k buf (rw (← here) (w 0 (omega arith)))
    ∙ first_nul_miss n (k + 1) buf (λ l q. rw (← there l) (w (suc l) (omega arith)))

-- Without a NUL among its 1024 bytes the copy runs over both buffers.
pub strcpy_content_overrun :
    (to from : Content)
    → ((k : ℕ) → k < 1024 → (from k == 0) ≡ false)
    → strcpy_content to from ≡ undefined
unfolding strcpy_content
strcpy_content_overrun to from w =
    let start : (k : ℕ) → 0 + k ≡ k = λ k. omega arith in
    rw (first_nul_miss 1024 0 from (λ l q. rw (start l) (w l q)), strcpy_content) refl

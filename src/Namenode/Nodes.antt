-- ===== src/Namenode/Nodes.antt =====
-- The list of datanodes: registration and its count, and the search for the next one alive.
use ecse.Common.{
  ℕ, zero, suc, ◌+◌, ◌-◌, ◌%◌, ◌<◌, ◌≤◌, ◌≡◌, ◌≢◌, refl, sym, inl, inr, Option, none, some, Outcome,
  done, undefined, diverged, exited, arith, ltb, ◌==◌, if◌then◌else◌, Bool-cases, Option-cases,
  eq_of_eqb, eqb_of_ne, ltb_of_lt, ltb_of_le,
}
use ecse.Common.Int.{pos}
use ecse.Common.Texts.{Text}
use ecse.Namenode.{Datanode, Namenode, is_some, set_at, enter_node, register_datanode, find_node}

-- How many of the first `n` entries are filled.
unfoldable pub live_count : ℕ → (ℕ → Option Datanode) → ℕ
live_count zero nodes = 0
live_count (suc n) nodes = (if is_some (nodes n) then 1 else 0) + live_count n nodes

-- The counter of the namenode agrees with its list.
pub record IsCounted (s : Namenode) : Type 0 where
  pub agrees : s.dncnt ≡ live_count 10 s.dnlist

live_count-set :
    (n i : ℕ) (nodes : ℕ → Option Datanode) (d : Datanode)
    → live_count n (set_at nodes i (some d))
      ≡ (if ltb i n then (if is_some (nodes i) then 0 else 1) else 0) + live_count n nodes
unfolding live_count
live_count-set zero i nodes d = ground arith
live_count-set (suc n) i nodes d = elim (Bool-cases (n == i)) [
  | inl same ↦
      let e : n ≡ i = eq_of_eqb n i same in rw (← e) (ground (arith, live_count-set n n nodes d))
  | inr other ↦ ground (arith, live_count-set n i nodes d)
]

-- What the registration of a datanode at index `i` does.
pub record Registered (s : Namenode) (i port : ℕ) (ip : Text) (t : Namenode) : Type 0 where
  pub entry : t.dnlist i ≡ some (record { dn_id = i + 1; ip = ip; port = port })
  pub others : (k : ℕ) → k ≢ i → t.dnlist k ≡ s.dnlist k
  pub counted : IsCounted t
  pub running : t.safe_mode ≡ 0
  pub files : t.file_images ≡ s.file_images
  pub junk : t.stack ≡ s.stack

-- `register_datanode` enters a datanode with an id from 1 to 9, where the counter agrees with the
-- list: its entry holds the id, the address and the port, no other entry changes, the counter agrees
-- with the list again, safe mode ends and the files stay.
pub register_datanode-Registered :
    (s : Namenode) (i port : ℕ) (ip : Text)
    → IsCounted s
    → i < 9
    → (t : Namenode) × (register_datanode s (pos (suc i)) port ip ≡ done t)
      × Registered s i port ip t
unfolding register_datanode enter_node
register_datanode-Registered s i port ip h lt = (
  enter_node s i port ip,
  rw (ltb_of_lt (suc i) 10 (omega arith)),
  record {
    entry = ground arith;
    others = λ k ne. rw (eqb_of_ne k i ne);
    counted = record {
      agrees = ground (
        arith,
        h.agrees,
        live_count-set 10 i s.dnlist (record { dn_id = i + 1; ip = ip; port = port }),
      );
    };
    running = refl;
    files = refl;
    junk = refl;
  },
)

-- `register_datanode` turns a datanode with an id of 10 or more away and changes nothing, although
-- the list has ten entries.
pub register_datanode_refused :
    (s : Namenode) (i port : ℕ) (ip : Text)
    → 9 ≤ i
    → register_datanode s (pos (suc i)) port ip ≡ done s
unfolding register_datanode
register_datanode_refused s i port ip le = rw (ltb_of_le (suc i) 10 (omega arith))

-- From index `i` on, round the list, `d` is the first entry that is filled.
pub record IsNext (nodes : ℕ → Option Datanode) (i : ℕ) (d : ℕ) (dn : Datanode) : Type 0 where
  pub steps : ℕ
  pub few : steps < 10
  pub at : d ≡ (i + steps) % 10
  pub filled : nodes d ≡ some dn
  pub skipped : (l : ℕ) → l < steps → nodes ((i + l) % 10) ≡ none

-- What the search with `n` rounds comes to.
abbrev pub Found : (ℕ → Option Datanode) → ℕ → ℕ → Outcome (ℕ × Datanode) → Type 0
Found nodes n i (done (d, dn)) =
    (m : ℕ) × (m < n)
    × (d ≡ (i + m) % 10)
    × (nodes d ≡ some dn)
    × ((l : ℕ) → l < m → nodes ((i + l) % 10) ≡ none)
Found nodes n i undefined = ⊥
Found nodes n i diverged = (l : ℕ) → l < n → nodes ((i + l) % 10) ≡ none
Found nodes n i exited = ⊥

skip_suc :
    (nodes : ℕ → Option Datanode) (n i : ℕ)
    → i < 10
    → nodes i ≡ none
    → ((l : ℕ) → l < n → nodes (((i + 1) % 10 + l) % 10) ≡ none)
    → (l : ℕ) → l < suc n
    → nodes ((i + l) % 10) ≡ none
skip_suc nodes n i lt e f zero q = let here : (i + 0) % 10 ≡ i = omega arith in rw here e
skip_suc nodes n i lt e f (suc l) q =
    let there : (i + suc l) % 10 ≡ ((i + 1) % 10 + l) % 10 = omega arith in
    rw there (f l (omega arith))

Found-suc :
    (nodes : ℕ → Option Datanode) (n i : ℕ) (r : Outcome (ℕ × Datanode))
    → i < 10
    → nodes i ≡ none
    → Found nodes n ((i + 1) % 10) r
    → Found nodes (suc n) i r
Found-suc nodes n i (done (d, dn)) lt e (m, fuel, at, filled, skipped) =
    (suc m, omega arith, omega arith, filled, skip_suc nodes m i lt e skipped)
Found-suc nodes n i undefined lt e f = f
Found-suc nodes n i diverged lt e f = skip_suc nodes n i lt e f
Found-suc nodes n i exited lt e f = f

find_node-none :
    (n : ℕ) (nodes : ℕ → Option Datanode) (i : ℕ)
    → nodes i ≡ none
    → find_node (suc n) nodes i ≡ find_node n nodes ((i + 1) % 10)
unfolding find_node
find_node-none n nodes i e = rw (e, find_node) refl

pub find_node-some :
    (n : ℕ) (nodes : ℕ → Option Datanode) (i : ℕ) (d : Datanode)
    → nodes i ≡ some d
    → find_node (suc n) nodes i ≡ done (i, d)
unfolding find_node
find_node-some n nodes i d e = rw (e, find_node) refl

find_node-zero : (nodes : ℕ → Option Datanode) (i : ℕ) → find_node 0 nodes i ≡ diverged
unfolding find_node
find_node-zero nodes i = refl

pub find_node-Found :
    (n : ℕ) (nodes : ℕ → Option Datanode) (i : ℕ) → i < 10 → Found nodes n i (find_node n nodes i)
find_node-Found zero nodes i lt = rw (find_node-zero nodes i) (λ l q. absurd (omega arith))
find_node-Found (suc n) nodes i lt = elim (Option-cases (nodes i)) [
  | inl e ↦
      rw (find_node-none n nodes i e)
        (Found-suc nodes n i _ lt e (find_node-Found n nodes ((i + 1) % 10) (omega arith)))
  | inr (d, e) ↦
      let here : (i + 0) % 10 ≡ i = omega arith in
      rw (find_node-some n nodes i d e) (0, omega arith, sym here, e, λ l q. absurd (omega arith))
]

-- Where some datanode is registered the search for a valid one ends within ten rounds, at the first
-- registered one from the start on, round the list.
pub find_node-IsNext :
    (nodes : ℕ → Option Datanode) (i k : ℕ) (dk : Datanode)
    → i < 10
    → k < 10
    → nodes k ≡ some dk
    → (d : ℕ) × (dn : Datanode) × (find_node 10 nodes i ≡ done (d, dn)) × IsNext nodes i d dn
find_node-IsNext nodes i k dk lt small live =
    ending (find_node 10 nodes i) (find_node-Found 10 nodes i lt)
  where
    ending :
        (r : Outcome (ℕ × Datanode))
        → Found nodes 10 i r
        → (d : ℕ) × (dn : Datanode) × (r ≡ done (d, dn)) × IsNext nodes i d dn
    ending (done (d, dn)) (m, few, at, filled, skipped) =
        (d, dn, refl, record { steps = m; few = few; at = at; filled = filled; skipped = skipped })
    ending undefined f = absurd f
    ending exited f = absurd f
    ending diverged f =
        let l = (k + 10 - i) % 10 in
        let e : (i + l) % 10 ≡ k = omega arith in
        let dead : nodes k ≡ none = rw (← e) (f l (omega arith)) in cc

-- ===== src/Namenode/Service/Running.antt =====
-- What holds of the namenode's process whenever it is looked at, and that it then answers.
use ecse.Common.{
  ℕ, zero, suc, ◌<◌, ◌≤◌, ◌≡◌, ◌≢◌, ltb, lt_of_ltb, le_of_ltb, refl, sym, ap, ◌∙◌, inl, inr, true,
  false, none, some, done, arith, Bool-cases, eqb_of_eq, done-injective,
}
use ecse.Common.Int.{ℤ, pos, negsuc}
use ecse.Common.Texts.{Text}
use ecse.Namenode.{
  FileImage, Request, Namenode, Answer, file, is_some, blocks_for, enter_node, register_datanode,
  get_file_location, requests_dispatcher,
}
use ecse.Namenode.Nodes.{live_count}
use ecse.Namenode.Files.{Without, IsFree}
use ecse.Namenode.Receivers.{get_file_receivers-Received_new}
use ecse.Namenode.Cases.{answered, requests_dispatcher-cases}
use ecse.Namenode.Service.{
  Server, started, Round, registers, wakes, answers, Reached, starts, later,
}
use ecse.Namenode.Service.Sound.{
  Sound, IsPlaced, register_datanode-Sound, requests_dispatcher-Sound,
}

started-Sound : (stack : ℕ → ℕ) → Sound (started stack).namenode
unfolding started live_count
started-Sound stack = record {
  counted = record { agrees = refl };
  live = λ awake. absurd (awake refl);
  entries = 0;
  filled = λ l q. absurd (omega arith);
  vacant = λ l q. refl;
  placed = λ slot f at. absurd (cc);
}

-- A request does not change the mode.
safe_mode-request :
    (s t : Namenode) (request : Request) (a : Answer)
    → requests_dispatcher s request ≡ answered a t
    → t.safe_mode ≡ s.safe_mode
safe_mode-request s t request a e =
    requests_dispatcher-cases (λ u. u.safe_mode ≡ s.safe_mode) s request refl
      (λ slot f hit blocks ran. refl) (λ slot free blocks ran. refl) (λ slot f hit blocks ran. refl)
      a t e

-- A registration never begins safe mode.
safe_mode-register :
    (s t : Namenode) (id : ℤ) (port : ℕ) (ip : Text)
    → register_datanode s id port ip ≡ done t
    → s.safe_mode ≢ 1
    → t.safe_mode ≢ 1
unfolding register_datanode enter_node
safe_mode-register s t (pos zero) port ip e awake = absurd (cc)
safe_mode-register s t (negsuc n) port ip e awake = absurd (cc)
safe_mode-register s t (pos (suc i)) port ip e awake = elim (Bool-cases (ltb (suc i) 10)) [
  | inl inside ↦
      let same = ap (λ (u : Namenode). u.safe_mode) (done-injective _ _ (rw inside at e)) in
      λ q. let ends : ◌≡◌ {A = ℕ} 0 1 = same ∙ q in omega (arith, ends)
  | inr outside ↦
      let same = ap (λ (u : Namenode). u.safe_mode) (done-injective _ _ (rw outside at e)) in
      λ q. awake (same ∙ q)
]

-- The process is sound, and answers requests outside of safe mode only.
pub record IsSound (s : Server) : Type 0 where
  pub sound : Sound s.namenode
  pub awake : s.serving ≡ true → s.namenode.safe_mode ≢ 1

Round-IsSound : {s t : Server} → Round s t → IsSound s → IsSound t
Round-IsSound {s} (registers id port ip {t} e) h = record {
  sound = register_datanode-Sound s.namenode t id port ip e h.sound;
  awake = λ on. safe_mode-register s.namenode t id port ip e (h.awake on);
}
Round-IsSound (wakes over) h = record { sound = h.sound; awake = λ on. over }
Round-IsSound {s} (answers request a {t} on e) h = record {
  sound = requests_dispatcher-Sound s.namenode t request a e h.sound;
  awake = λ still q. h.awake still (sym (safe_mode-request s.namenode t request a e) ∙ q);
}

started-awake :
    (stack : ℕ → ℕ) → (started stack).serving ≡ true → (started stack).namenode.safe_mode ≢ 1
unfolding started
started-awake stack on = absurd (cc)

-- However heartbeats and requests are interleaved from the start of the namenode on: its counter
-- agrees with its list; once safe mode has ended a datanode is registered, and no request is answered
-- before; the first entries of the table of files are in use and no others; and each block that a
-- file counts has its number and is on a datanode of the list.
pub Reached-IsSound : {stack : ℕ → ℕ} {s : Server} → Reached stack s → IsSound s
Reached-IsSound {stack} starts = record { sound = started-Sound stack; awake = started-awake stack }
Reached-IsSound (later r e) = Round-IsSound e (Reached-IsSound r)

-- The first free entry of the table.
Sound-IsFree :
    (s : Namenode) (h : Sound s) (l : ℕ)
    → l < 1000
    → s.file_images l ≡ none
    → IsFree s.file_images h.entries
Sound-IsFree s h l lt empty = elim (Bool-cases (ltb l h.entries)) [
  | inl inside ↦
      let in_use = h.filled l (lt_of_ltb l h.entries inside) in
      let free : is_some (s.file_images l) ≡ false = rw empty refl in absurd (cc)
  | inr behind ↦
      let le = le_of_ltb l h.entries behind in
      record { inside = omega arith; empty = h.vacant h.entries (omega arith); before = h.filled }
]

-- Whatever has happened since the start of the namenode: once it answers requests, and while an entry
-- of the table is free, a request for at most 100 blocks for a name that no file has is answered with
-- a file of that many blocks, each on a datanode of the list, and a lookup of the name then finds it.
pub Reached-receives :
    (stack : ℕ → ℕ) (s : Server) (name : Text) (size l : ℕ)
    → Reached stack s
    → s.serving ≡ true
    → l < 1000
    → s.namenode.file_images l ≡ none
    → Without 1000 s.namenode.file_images name 0
    → blocks_for size ≤ 100
    → (g : FileImage) × (t : Namenode) × (requests_dispatcher s.namenode
          (record { file_name = name; file_size = size; req_type = 1 })
        ≡ done (file (pos 0, some g), t))
      × (g.blocknum ≡ blocks_for size)
      × IsPlaced t.dnlist g
      × (get_file_location t (record { file_name = name; file_size = size; req_type = 1 })
          ≡ (pos 0, some g))
unfolding requests_dispatcher
Reached-receives stack s name size l r on lt empty new few =
    let request : Request = record { file_name = name; file_size = size; req_type = 1 } in
    let h = Reached-IsSound r in
    let (k, dk, small, listed) = h.sound.live (h.awake on) in
    let free = Sound-IsFree s.namenode h.sound l lt empty in
    let (g, t, e, received) =
      get_file_receivers-Received_new s.namenode request k dk small listed h.sound.entries free new
        few in
    let slot = h.sound.entries in
    let run : requests_dispatcher s.namenode request ≡ answered (file (pos 0, some g)) t =
      rw (e, requests_dispatcher) refl in
    let entry : t.file_images slot ≡ some g =
      ap (λ (u : Namenode). u.file_images slot) received.stored
      ∙ rw (eqb_of_eq slot slot refl) refl in
    let after = requests_dispatcher-Sound s.namenode t request (file (pos 0, some g)) run h.sound in
    (g, t, run, received.counted, after.placed slot g entry, received.located)

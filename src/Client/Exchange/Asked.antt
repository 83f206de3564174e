-- ===== src/Client/Exchange/Asked.antt =====
-- Heartbeats and requests to the namenode leave the files of other names.
use ecse.Common.{
  ℕ, zero, suc, ◌≡◌, refl, sym, ap, inl, inr, Outcome, done, undefined, diverged, exited, ◌>>=◌,
  leb, ltb, length, Bool-cases, done-injective,
}
use mathlib.Core.Path.{subst}
use ecse.Common.Int.{ℤ, pos, negsuc}
use ecse.Common.Texts.{Text}
use ecse.Namenode.{FileBlock, FileImage, Request, Namenode, Answer, enter_node, register_datanode}
use ecse.Namenode
use ecse.Namenode.Cases.{answered}
use ecse.Namenode.Kept.{Finds}
use ecse.Client.{Cluster, ask_namenode, heartbeat}
use ecse.Client.Exchange.{Untouched}

module _ (decimal : ℕ → Text) (name : Text) (c : Cluster) where
  -- Only the namenode changes.
  Untouched-namenode :
      (t : Namenode)
      → Finds name c.namenode t
      → Untouched decimal name c (record c { namenode = t })
  Untouched-namenode t f = record { finds = f; listening = refl; blocks = λ a r o. refl }

  registers :
      (o : Outcome Namenode) (c' : Cluster)
      → ((t : Namenode) → o ≡ done t → t.file_images ≡ c.namenode.file_images)
      → (o >>= λ t. done (record c { namenode = t })) ≡ done c'
      → Untouched decimal name c c'
  registers (done t) c' same e =
      subst (λ (x : Cluster). Untouched decimal name c x) (done-injective _ _ e)
        (Untouched-namenode t (rw (same t refl) refl))
  registers undefined c' same e = absurd (cc)
  registers diverged c' same e = absurd (cc)
  registers exited c' same e = absurd (cc)

  register_datanode_images :
      (id : ℤ) (port : ℕ) (ip : Text) (t : Namenode)
      → register_datanode c.namenode id port ip ≡ done t
      → t.file_images ≡ c.namenode.file_images
  unfolding register_datanode enter_node
  register_datanode_images (pos zero) port ip t e = absurd (cc)
  register_datanode_images (negsuc n) port ip t e = absurd (cc)
  register_datanode_images (pos (suc i)) port ip t e = elim (Bool-cases (ltb (suc i) 10)) [
    | inl inside ↦ sym (ap (λ (u : Namenode). u.file_images) (done-injective _ _ (rw inside at e)))
    | inr outside ↦
        sym (ap (λ (u : Namenode). u.file_images) (done-injective _ _ (rw outside at e)))
  ]

  pub heartbeat-Untouched :
      (id : ℤ) (port : ℕ) (c' : Cluster)
      → heartbeat c id port ≡ done c'
      → Untouched decimal name c c'
  unfolding heartbeat
  heartbeat-Untouched id port c' e =
      registers (register_datanode c.namenode id port _) c' (register_datanode_images id port _) e

  abbrev pub told : Answer → Cluster → Outcome (Answer × Cluster)
  told a c' = done (a, c')

  answers :
      (o : Outcome (Answer × Namenode)) (a : Answer) (c' : Cluster)
      → ((b : Answer) (t : Namenode) → o ≡ answered b t → Finds name c.namenode t)
      → (o >>= λ (b, t). told b (record c { namenode = t })) ≡ told a c'
      → Untouched decimal name c c'
  answers (done (b, t)) a c' found e =
      let same : record c { namenode = t } ≡ c' =
        ap (λ (p : Answer × Cluster). p.1) (done-injective _ _ e) in
      subst (λ (x : Cluster). Untouched decimal name c x) same
        (Untouched-namenode t (found b t refl))
  answers undefined a c' found e = absurd (cc)
  answers diverged a c' found e = absurd (cc)
  answers exited a c' found e = absurd (cc)

  pub ask_namenode-Untouched :
      (request : Request) (a : Answer) (c' : Cluster)
      → ((b : Answer) (t : Namenode)
          → Namenode.requests_dispatcher c.namenode request ≡ answered b t
          → Finds name c.namenode t)
      → ask_namenode c request ≡ told a c'
      → Untouched decimal name c c'
  unfolding ask_namenode
  ask_namenode-Untouched request a c' found e =
      elim (Bool-cases (leb 256 (length request.file_name))) [
        | inl long ↦ let stops : undefined ≡ told a c' = rw long at e in absurd (cc)
        | inr fits ↦
            answers (Namenode.requests_dispatcher c.namenode request) a c' found (rw fits at e)
      ]

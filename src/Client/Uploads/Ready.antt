-- ===== src/Client/Uploads/Ready.antt =====
-- That the machines stay ready for the files still to be pushed.
use ecse.Common.{
  ℕ, ◌+◌, ◌≡◌, refl, sym, ap, false, List, [], ◌∷◌, Option, some, arith, All, ◌==◌, Bool-cases, inl,
  inr, ne_of_eqb, eqb_of_ne,
}
use ecse.Common.Texts.{Text, text_eq}
use ecse.Namenode.{FileImage, Namenode, set_at}
use ecse.Namenode.Files.{Without}
use ecse.Datanode.Paths.{text_eq_of_ne}
use ecse.Client.{Cluster}
use ecse.Client.Uploads.{Upload, IsReady, IsUpload, IsApartFrom}

-- The table after a new entry, at a name that the entry does not have.
Without-set :
    (images : ℕ → Option FileImage) (slot : ℕ) (g : FileImage) (name : Text)
    → text_eq g.filename name ≡ false
    → Without 1000 images name 0
    → Without 1000 (set_at images slot (some g)) name 0
unfolding Without
Without-set images slot g name differ w = λ l q. elim (Bool-cases (0 + l == slot)) [
  | inl here ↦ rw (here) differ
  | inr there ↦ rw (there) (w l q)
]

pub IsReady-suc :
    (c c' : Cluster) (slot : ℕ) (g : FileImage)
    → IsReady c slot
    → c'.namenode ≡ record c.namenode { file_images = set_at c.namenode.file_images slot (some g) }
    → c'.listening ≡ c.listening
    → IsReady c' (slot + 1)
IsReady-suc c c' slot g r e f =
    let nodes : c'.namenode.dnlist ≡ c.namenode.dnlist = ap (λ (s : Namenode). s.dnlist) e in
    let images : c'.namenode.file_images ≡ set_at c.namenode.file_images slot (some g) =
      ap (λ (s : Namenode). s.file_images) e in
    record {
      node = r.node;
      datanode = r.datanode;
      small = r.small;
      live = rw nodes r.live;
      connected = record { serves = rw (nodes, f) r.connected.serves };
      directories = record { ends = rw f r.directories.ends };
      filled = λ l q. rw images (elim (Bool-cases (l == slot)) [
        | inl here ↦ rw here refl
        | inr there ↦ let ne = ne_of_eqb l slot there in rw there (r.filled l (omega arith))
      ]);
      vacant = λ l q.
          rw (images, eqb_of_ne l slot (λ e. absurd (omega arith))) (r.vacant l (omega arith));
    }

pub uploads-suc :
    (decimal : ℕ → Text) (c c' : Cluster) (slot : ℕ) (g : FileImage) (name : Text)
    → c'.namenode ≡ record c.namenode { file_images = set_at c.namenode.file_images slot (some g) }
    → g.filename ≡ name
    → c'.listening ≡ c.listening
    → (us : List Upload) → IsApartFrom name us
    → All (IsUpload decimal c) us
    → All (IsUpload decimal c') us
uploads-suc decimal c c' slot g name e named f [] apart h = _
uploads-suc decimal c c' slot g name e named f (u ∷ us) apart h =
    let first = h.0 in
    let images : c'.namenode.file_images ≡ set_at c.namenode.file_images slot (some g) =
      ap (λ (s : Namenode). s.file_images) e in
    let differ : text_eq g.filename u.path ≡ false =
      rw named (text_eq_of_ne name u.path (λ q. apart.0 (sym q))) in
    (
      record {
        plain = first.plain;
        short = first.short;
        few = first.few;
        new = rw images (Without-set c.namenode.file_images slot g u.path differ first.new);
        writable = rw f first.writable;
      },
      uploads-suc decimal c c' slot g name e named f us apart.1 h.1,
    )

pub uploads_same :
    (decimal : ℕ → Text) (c t : Cluster)
    → t.namenode.file_images ≡ c.namenode.file_images
    → t.listening ≡ c.listening
    → (us : List Upload) → All (IsUpload decimal c) us
    → All (IsUpload decimal t) us
uploads_same decimal c t e f [] h = _
uploads_same decimal c t e f (u ∷ us) h =
    let first = h.0 in
    (
      record {
        plain = first.plain;
        short = first.short;
        few = first.few;
        new = rw e first.new;
        writable = rw f first.writable;
      },
      uploads_same decimal c t e f us h.1,
    )

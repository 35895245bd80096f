-- ===== src/Fs/Vfs/Nodes/Similar.antt =====
-- Changes of the nodes that keep the names and the children.
use old_boruixkernel.Common.{
  ℕ, ◌<◌, ◌≡◌, refl, sym, ap, ◌∙◌, subst, true, List, [], ◌∷◌, ◌==◌, ==_refl, arith, Bool-cases,
  inl, inr, All,
}
use old_boruixkernel.Fs.Vfs.{dir, World, set_node, is_dir}
use old_boruixkernel.Fs.Vfs.Path.{Bytes}
use old_boruixkernel.Fs.Vfs.Nodes.{vfs_child_find, find_named}
use old_boruixkernel.Fs.Vfs.Nodes.Tree.{IsClosed, Extends, find_named-names}

-- Nodes that have the same names and children, and of which the same are directories, if not more.
pub record Similar {F : Type 0} (w w' : World F) : Type 0 where
  pub used : w'.used ≡ w.used
  pub same_root : w'.root ≡ w.root
  pub names : (i : ℕ) → (w'.nodes i).name ≡ (w.nodes i).name
  pub children : (i : ℕ) → (w'.nodes i).children ≡ (w.nodes i).children
  pub dirs : (i : ℕ) → is_dir (w.nodes i).node_type ≡ true → is_dir (w'.nodes i).node_type ≡ true

pub Similar-IsClosed : {F : Type 0} (w w' : World F) → Similar w w' → IsClosed w → IsClosed w'
Similar-IsClosed w w' s c i h =
    let lt : i < w.used = omega (arith, s.used) in
    subst (λ cs. All (λ x. x < w'.used) cs) (sym (s.children i))
      (subst (λ n. All (λ x. x < n) (w.nodes i).children) (sym s.used) (c i lt))

all_same :
    {F : Type 0} (w w' : World F)
    → Similar w w'
    → (cs : List ℕ) → All (λ c. (w'.nodes c).name ≡ (w.nodes c).name) cs
all_same w w' s [] = tt
all_same w w' s (c ∷ cs) = (s.names c, all_same w w' s cs)

pub Similar-finds :
    {F : Type 0} (w w' : World F)
    → Similar w w'
    → (i : ℕ) (p : Bytes) → vfs_child_find i p w' ≡ vfs_child_find i p w
Similar-finds w w' s i p =
    ap (λ cs. find_named w'.nodes p cs) (s.children i)
    ∙ find_named-names w.nodes w'.nodes p (w.nodes i).children
        (all_same w w' s (w.nodes i).children)

pub Similar-Extends : {F : Type 0} (w w' : World F) → Similar w w' → Extends w w'
Similar-Extends w w' s = record {
  grows = omega (arith, s.used);
  same_root = s.same_root;
  dirs = λ i h e. s.dirs i e;
  finds = λ i p c h e. Similar-finds w w' s i p ∙ e;
}

-- An assignment of the type `Dir`.
pub dir_set :
    {F : Type 0} (w : World F) (n : ℕ)
    → Similar w (set_node n (record (w.nodes n) { node_type = dir }) w)
dir_set w n = record {
  used = refl;
  same_root = refl;
  names = λ i. elim (Bool-cases (i == n)) [
    | inl e ↦ let k : i ≡ n = ground arith in rw (k, ==_refl n) refl
    | inr e ↦ rw e refl
  ];
  children = λ i. elim (Bool-cases (i == n)) [
    | inl e ↦ let k : i ≡ n = ground arith in rw (k, ==_refl n) refl
    | inr e ↦ rw e refl
  ];
  dirs = λ i h. elim (Bool-cases (i == n)) [ inl e ↦ rw e refl | inr e ↦ rw e h ];
}

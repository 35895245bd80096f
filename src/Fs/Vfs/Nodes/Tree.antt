-- ===== src/Fs/Vfs/Nodes/Tree.antt =====
-- What the addition of a child keeps.
use old_boruixkernel.Common.{
  ℕ, ◌+◌, ◌≤◌, ◌<◌, ◌≡◌, ◌≢◌, refl, sym, ap, ◌∙◌, subst, true, false, none, some, List, [], ◌∷◌,
  ◌++◌, ◌==◌, ==_refl, arith, Bool-cases, inl, inr, All, All-append, All-imp, bytes_eq,
  bytes_eq_refl,
}
use old_boruixkernel.Fs.Vfs.{VfsNode, none_type, World, is_dir}
use old_boruixkernel.Fs.Vfs.Path.{Bytes}
use old_boruixkernel.Fs.Vfs.Nodes.{find_named, vfs_child_find, vfs_child_append, vfs_node_alloc}

-- The children of the nodes that exist exist.
abbrev pub IsClosed : {F : Type 0} → World F → Type 0
IsClosed w = (i : ℕ) → i < w.used → All (λ c. c < w.used) (w.nodes i).children

-- Names that lead from a node to another go on to do so, and directories stay directories.
pub record Extends {F : Type 0} (w w' : World F) : Type 0 where
  pub grows : w.used ≤ w'.used
  pub same_root : w'.root ≡ w.root
  pub dirs :
      (i : ℕ)
      → i < w.used
      → is_dir (w.nodes i).node_type ≡ true
      → is_dir (w'.nodes i).node_type ≡ true
  pub finds :
      (i : ℕ) (p : Bytes) (c : ℕ)
      → i < w.used
      → vfs_child_find i p w ≡ some c
      → vfs_child_find i p w' ≡ some c

pub Extends-refl : {F : Type 0} (w : World F) → Extends w w
Extends-refl w = record {
  grows = omega arith;
  same_root = refl;
  dirs = λ i h e. e;
  finds = λ i p c h e. e;
}

pub Extends-trans : {F : Type 0} (w w1 w2 : World F) → Extends w w1 → Extends w1 w2 → Extends w w2
Extends-trans w w1 w2 a b = record {
  grows = omega (arith, a.grows, b.grows);
  same_root = b.same_root ∙ a.same_root;
  dirs = λ i h e. b.dirs i (omega (arith, a.grows)) (a.dirs i h e);
  finds = λ i p c h e. b.finds i p c (omega (arith, a.grows)) (a.finds i p c h e);
}

-- The search reads the names of the children only.
pub find_named-names :
    (f g : ℕ → VfsNode) (p : Bytes) (cs : List ℕ)
    → All (λ c. (g c).name ≡ (f c).name) cs
    → find_named g p cs ≡ find_named f p cs
unfolding find_named
find_named-names f g p [] h = refl
find_named-names f g p (c ∷ cs) h = rw (h.0, find_named-names f g p cs h.1) refl

find_named-append :
    (f : ℕ → VfsNode) (p : Bytes) (cs : List ℕ) (n c : ℕ)
    → find_named f p cs ≡ some c
    → find_named f p (cs ++ (n ∷ [])) ≡ some c
unfolding find_named
find_named-append f p [] n c h = cc
find_named-append f p (x ∷ cs) n c h = elim (Bool-cases (bytes_eq (f x).name p)) [
  | inl this ↦ rw this (ground arith)
  | inr later ↦ rw later (find_named-append f p cs n c (ground arith))
]

find_named_last :
    (f : ℕ → VfsNode) (p : Bytes) (cs : List ℕ) (n : ℕ)
    → find_named f p cs ≡ none
    → (f n).name ≡ p
    → find_named f p (cs ++ (n ∷ [])) ≡ some n
unfolding find_named
find_named_last f p [] n h e = rw (e, bytes_eq_refl p) refl
find_named_last f p (x ∷ cs) n h e = elim (Bool-cases (bytes_eq (f x).name p)) [
  | inl this ↦ absurd (ground arith)
  | inr later ↦ rw later (find_named_last f p cs n (ground arith) e)
]

-- A child that the search finds exists.
pub find_named_below :
    (f : ℕ → VfsNode) (p : Bytes) (cs : List ℕ) (n c : ℕ)
    → All (λ c. c < n) cs
    → find_named f p cs ≡ some c
    → c < n
unfolding find_named
find_named_below f p [] n c a h = absurd (cc)
find_named_below f p (x ∷ cs) n c a h = elim (Bool-cases (bytes_eq (f x).name p)) [
  | inl this ↦
      let e : some x ≡ some c = ground arith in let k : x ≡ c = cc in subst (λ z. z < n) k a.0
  | inr later ↦ find_named_below f p cs n c a.1 (ground arith)
]

module _ {F : Type 0} (w : World F) (parent : ℕ) (p : Bytes) (closed : IsClosed w)
    (lt : parent < w.used) where
  abbrev pub appended : World F
  appended = (vfs_child_append parent p w).1

  pub appended-used : appended.used ≡ w.used + 1
  unfolding vfs_node_alloc
  appended-used = refl

  appended-root : appended.root ≡ w.root
  unfolding vfs_node_alloc
  appended-root = refl

  same_name : (c : ℕ) → c < w.used → (appended.nodes c).name ≡ (w.nodes c).name
  unfolding vfs_node_alloc
  same_name c h =
      let other : (c == w.used) ≡ false = ground arith in
      let this : (parent == w.used) ≡ false = ground arith in
      elim (Bool-cases (c == parent)) [
        | inl e ↦ let k : c ≡ parent = ground arith in rw (e, this, k) refl
        | inr e ↦ rw (e, other) refl
      ]

  same_type : (c : ℕ) → c < w.used → (appended.nodes c).node_type ≡ (w.nodes c).node_type
  unfolding vfs_node_alloc
  same_type c h =
      let other : (c == w.used) ≡ false = ground arith in
      let this : (parent == w.used) ≡ false = ground arith in
      elim (Bool-cases (c == parent)) [
        | inl e ↦ let k : c ≡ parent = ground arith in rw (e, this, k) refl
        | inr e ↦ rw (e, other) refl
      ]

  new_name : (appended.nodes w.used).name ≡ p
  unfolding vfs_node_alloc
  new_name = let this : (w.used == parent) ≡ false = ground arith in rw (this, ==_refl w.used) refl

  pub appended-new_type : (appended.nodes w.used).node_type ≡ none_type
  unfolding vfs_node_alloc
  appended-new_type =
      let this : (w.used == parent) ≡ false = ground arith in rw (this, ==_refl w.used) refl

  new_children : (appended.nodes w.used).children ≡ []
  unfolding vfs_node_alloc
  new_children =
      let this : (w.used == parent) ≡ false = ground arith in rw (this, ==_refl w.used) refl

  parent_children : (appended.nodes parent).children ≡ (w.nodes parent).children ++ (w.used ∷ [])
  unfolding vfs_node_alloc
  parent_children =
      let this : (parent == w.used) ≡ false = ground arith in rw (this, ==_refl parent) refl

  other_children :
      (c : ℕ) → c < w.used → c ≢ parent → (appended.nodes c).children ≡ (w.nodes c).children
  unfolding vfs_node_alloc
  other_children c h ne =
      let other : (c == w.used) ≡ false = ground arith in
      let e : (c == parent) ≡ false = ground arith in rw (e, other) refl

  all_names :
      (cs : List ℕ)
      → All (λ c. c < w.used) cs
      → All (λ c. (appended.nodes c).name ≡ (w.nodes c).name) cs
  all_names cs h =
      All-imp (λ c. c < w.used) (λ c. (appended.nodes c).name ≡ (w.nodes c).name) same_name cs h

  pub appended-IsClosed : IsClosed appended
  appended-IsClosed i h = elim (Bool-cases (i == w.used)) [
    | inl e ↦
        let k : i ≡ w.used = ground arith in
        subst (λ cs. All (λ c. c < appended.used) cs)
          (sym (ap (λ z. (appended.nodes z).children) k ∙ new_children)) tt
    | inr e ↦
        let below : i < w.used = ground (arith, appended-used, h) in
        let up = λ (cs : List ℕ) (a : All (λ c. c < w.used) cs).
          All-imp (λ c. c < w.used) (λ c. c < appended.used) (λ c x. omega (arith, appended-used))
            cs a in
        elim (Bool-cases (i == parent)) [
          | inl at ↦
              let k : i ≡ parent = ground arith in
              subst (λ cs. All (λ c. c < appended.used) cs)
                (sym (ap (λ z. (appended.nodes z).children) k ∙ parent_children))
                (All-append (λ c. c < appended.used) (w.nodes parent).children (w.used ∷ [])
                  (up (w.nodes parent).children (closed parent lt)) (omega (arith, appended-used)))
          | inr away ↦
              subst (λ cs. All (λ c. c < appended.used) cs)
                (sym (other_children i below (λ z. ground arith)))
                (up (w.nodes i).children (closed i below))
        ]
  ]

  pub appended-finds :
      vfs_child_find parent p w ≡ none → vfs_child_find parent p appended ≡ some w.used
  appended-finds h =
      ap (λ cs. find_named appended.nodes p cs) parent_children
      ∙ find_named_last appended.nodes p (w.nodes parent).children w.used
          (find_named-names w.nodes appended.nodes p (w.nodes parent).children
              (all_names (w.nodes parent).children (closed parent lt))
            ∙ h)
          new_name

  pub appended-Extends : Extends w appended
  appended-Extends = record {
    grows = omega (arith, appended-used);
    same_root = appended-root;
    dirs = λ i h e. ap is_dir (same_type i h) ∙ e;
    finds = λ i q c h e.
        let before =
          find_named-names w.nodes appended.nodes q (w.nodes i).children
            (all_names (w.nodes i).children (closed i h)) in
        elim (Bool-cases (i == parent)) [
          | inl at ↦
              let k : i ≡ parent = ground arith in
              ap (λ cs. find_named appended.nodes q cs)
                (ap (λ z. (appended.nodes z).children) k
                  ∙ parent_children
                  ∙ ap (λ z. (w.nodes z).children ++ (w.used ∷ [])) (sym k))
              ∙ find_named-append appended.nodes q (w.nodes i).children w.used c (before ∙ e)
          | inr away ↦
              ap (λ cs. find_named appended.nodes q cs) (other_children i h (λ z. ground arith))
              ∙ before
              ∙ e
        ];
  }

-- ===== src/Apfs/Paths.antt =====
-- lib/jevmachopp/UBootAPFS.cpp: what the lookup of a path means, for a splitting of strings that
-- does what the code relies on.
use jevmachopp.Base.{
  ℕ, ◌+◌, if◌then◌else◌, Bool-cases, inl, inr, ◌<◌, ◌^◌, suc, List, [], ◌∷◌, ◌++◌, length, drop,
  Option, none, some, Bool, true, false, ◌≡◌, ◌≢◌, refl, ap, sym, ◌∙◌, ◌||◌, Outcome, bind_cong,
  bind_assoc, done, aborted, overrun, ◌>>=◌, All, arith, leb-false, Bool-cases, inl, inr,
}
use mathlib.Core.Option
use jevmachopp.Text.{get, text_eq}
use jevmachopp.Text.Laws.{joined, join-joined}
use jevmachopp.Text.Splitting.{IsName, Splits}
use jevmachopp.Apfs.{
  Libraries, Container, Volume, ApfsNode, path_of, path_from, volume_node, child_named, is_empty,
  text_eq,
}
use jevmachopp.Apfs.Lookup.{
  lookup_volume_loop, lookup_volume, lookup, walk, names_of, lookup_volume_loop,
}

-- The names with a `/` between them.
abbrev pub slashed : List (List ℕ) → List ℕ
slashed names = joined (b'/' ∷ []) names

slashed-is_empty :
    (n : List ℕ) (names : List (List ℕ)) → n ≢ [] → is_empty (slashed (n ∷ names)) ≡ false
slashed-is_empty [] names h = absurd (h refl)
slashed-is_empty (x ∷ n) [] h = refl
slashed-is_empty (x ∷ n) (m ∷ names) h = refl

get-head : {A : Type 0} (a : A) (xs : List A) → get (a ∷ xs) 0 ≡ some a
unfolding get
get-head a xs = rw (leb-false (suc (length xs)) 0 (omega arith))

or-true : (b : Bool) → (b || true) ≡ true
or-true true = refl
or-true false = refl

bind-done {ℓ} : {A : Type ℓ} (m : Outcome A) → m >>= done ≡ m
bind-done (done a) = refl
bind-done aborted = refl
bind-done overrun = refl

module _ (l : Libraries) (c : Container) where
  -- The node that names lead to in a volume.
  abbrev pub in_volume : List (List ℕ) → Option Volume → Outcome (Option ApfsNode)
  in_volume names none = done none
  in_volume names (some v) = walk l c (volume_node v) names

  abbrev pub then_child : List ℕ → Option ApfsNode → Outcome (Option ApfsNode)
  then_child name none = done none
  then_child name (some n) = child_named l c n name

  abbrev then_walk : List (List ℕ) → Option ApfsNode → Outcome (Option ApfsNode)
  then_walk names none = done none
  then_walk names (some n) = walk l c n names

  walk-append :
      (n : ApfsNode) (names : List (List ℕ)) (name : List ℕ)
      → walk l c n (names ++ (name ∷ [])) ≡ walk l c n names >>= then_child name
  unfolding walk
  walk-append n [] name =
      bind_cong (child_named l c n name) _ _ (λ o. same o) ∙ bind-done (child_named l c n name)
    where
      same : (o : Option ApfsNode) → then_walk [] o ≡ done o
      same none = refl
      same (some m) = refl
  walk-append n (m ∷ names) name =
      bind_cong (child_named l c n m) _ _ (same (λ k. walk-append k names name))
      ∙ sym (bind_assoc (child_named l c n m) (then_walk names) (then_child name))
    where
      same :
          ((k : ApfsNode)
            → walk l c k (names ++ (name ∷ [])) ≡ walk l c k names >>= then_child name)
          → (o : Option ApfsNode)
          → then_walk (names ++ (name ∷ [])) o ≡ then_walk names o >>= then_child name
      same rest none = refl
      same rest (some k) = rest k

  -- From a node, each name leads to the child of the node that the names before it lead to.
  abbrev pub descend : Outcome (Option ApfsNode) → List (List ℕ) → Outcome (Option ApfsNode)
  descend o [] = o
  descend o (name ∷ names) = descend (o >>= then_child name) names

  descend-aborted : (names : List (List ℕ)) → descend aborted names ≡ aborted
  descend-aborted [] = refl
  descend-aborted (name ∷ names) = descend-aborted names

  descend-overrun : (names : List (List ℕ)) → descend overrun names ≡ overrun
  descend-overrun [] = refl
  descend-overrun (name ∷ names) = descend-overrun names

  descend-none : (names : List (List ℕ)) → descend (done none) names ≡ done none
  descend-none [] = refl
  descend-none (name ∷ names) = descend-none names

  descend_into :
      (names : List (List ℕ))
      → ((n : ApfsNode) → walk l c n names ≡ descend (done (some n)) names)
      → (m : Outcome (Option ApfsNode)) → m >>= then_walk names ≡ descend m names
  descend_into names h (done none) = sym (descend-none names)
  descend_into names h (done (some child)) = h child
  descend_into names h aborted = sym (descend-aborted names)
  descend_into names h overrun = sym (descend-overrun names)

  walk-descend :
      (names : List (List ℕ)) (n : ApfsNode) → walk l c n names ≡ descend (done (some n)) names
  unfolding walk
  walk-descend [] n = refl
  walk-descend (name ∷ names) n =
      bind_cong (child_named l c n name) _ _ same
      ∙ descend_into names (walk-descend names) (child_named l c n name)
    where
      same :
          (o : Option ApfsNode)
          → (elim o as (λ _. Outcome (Option ApfsNode)) [
            | none ↦ done none
            | some child ↦ walk l c child names
          ])
            ≡ then_walk names o
      same none = refl
      same (some child) = refl

  -- What the container answers about its volumes from an index on: their names and volumes.
  abbrev pub HasVolumes : ℕ → List (List ℕ × Volume) → Type 0
  HasVolumes i [] = Unit
  HasVolumes i (e ∷ es) =
      (c.get_volume_info i ≡ some e.0) × (c.get_volume i ≡ some e.1) × HasVolumes (i + 1) es

  -- The root of the first volume of a name.
  abbrev pub root_of : List ℕ → List (List ℕ × Volume) → Option ApfsNode
  root_of vol [] = none
  root_of vol (e ∷ es) =
      let rest = root_of vol es in if text_eq vol e.0 then some (volume_node e.1) else rest

  abbrev node_of : Option Volume → Option ApfsNode
  node_of o = Option.map volume_node o

  lookup_volume_loop-root_of :
      (vol : List ℕ) (i : ℕ) (es : List (List ℕ × Volume))
      → HasVolumes i es
      → lookup_volume_loop l c vol i (length es) >>= (λ o. done (node_of o)) ≡ done (root_of vol es)
  unfolding lookup_volume_loop
  lookup_volume_loop-root_of vol i [] h = refl
  lookup_volume_loop-root_of vol i (e ∷ es) (named, there, h) =
      elim (Bool-cases (text_eq vol e.0)) [
        | inl same ↦ rw (named, there, same) refl
        | inr differs ↦ rw (named, there, differs) (lookup_volume_loop-root_of vol (i + 1) es h)
      ]

  in_volume-descend :
      (names : List (List ℕ)) (o : Option Volume)
      → in_volume names o ≡ descend (done (node_of o)) names
  in_volume-descend names none = sym (descend-none names)
  in_volume-descend names (some v) = walk-descend names (volume_node v)

  lookup_volume-descend :
      (vol : List ℕ) (es : List (List ℕ × Volume)) (names : List (List ℕ))
      → c.volume_cnt ≡ length es
      → HasVolumes 0 es
      → lookup_volume l c vol >>= in_volume names ≡ descend (done (root_of vol es)) names
  unfolding lookup_volume
  lookup_volume-descend vol es names count h =
      bind_cong (lookup_volume_loop l c vol 0 c.volume_cnt) _ _ (in_volume-descend names)
      ∙ (sym (
            bind_assoc (lookup_volume_loop l c vol 0 c.volume_cnt) (λ o. done (node_of o))
              (λ r. descend (done r) names))
          ∙ rw (count, lookup_volume_loop-root_of vol 0 es h) refl)

  -- A node in a volume: by the names of the path in it.
  lookup-names_of :
      (vol path : List ℕ)
      → vol ≢ []
      → lookup l c (record { volume = vol; path = path })
        ≡ lookup_volume l c vol >>= in_volume (names_of l c path)
  unfolding lookup
  lookup-names_of [] path h = absurd (h refl)
  lookup-names_of (x ∷ vol) path h = bind_cong (lookup_volume l c (x ∷ vol)) _ _ same
    where
      same :
          (o : Option Volume)
          → (elim o as (λ _. Outcome (Option ApfsNode)) [
            | none ↦ done none
            | some v ↦ walk l c (volume_node v) (names_of l c path)
          ])
            ≡ in_volume (names_of l c path) o
      same none = refl
      same (some v) = refl

  module _ (good : Splits l.split) where
    rooted-names_of :
        (n : List ℕ) (names : List (List ℕ))
        → All (IsName b'/') (n ∷ names)
        → names_of l c (b'/' ∷ slashed (n ∷ names)) ≡ n ∷ names
    rooted-names_of n names ok = rw (good.split_rooted b'/' n names ok)

    -- Without a `/` in front, the first name is dropped.
    slashed-names_of :
        (names : List (List ℕ))
        → All (IsName b'/') names
        → names_of l c (slashed names) ≡ drop 1 names
    slashed-names_of [] ok = refl
    slashed-names_of (n ∷ names) ok =
        rw (slashed-is_empty n names ok.0.0, good.split_joined b'/' n names ok)

    path_of-in_volume :
        (vol n : List ℕ) (names : List (List ℕ))
        → vol ≢ []
        → All (IsName b'/') (n ∷ names)
        → path_of vol (b'/' ∷ slashed (n ∷ names)) >>= lookup l c
          ≡ lookup_volume l c vol >>= in_volume (n ∷ names)
    unfolding path_of
    path_of-in_volume [] n names h ok = absurd (h refl)
    path_of-in_volume (x ∷ vol) n names h ok =
        lookup-names_of (x ∷ vol) (b'/' ∷ slashed (n ∷ names)) h
        ∙ ap (λ ns. lookup_volume l c (x ∷ vol) >>= in_volume ns) (rooted-names_of n names ok)

    -- For a container that answers about each of its volumes, a volume name that is not empty and a
    -- path of one or more names that begins with `/`, given as two strings: `lookup` begins at the
    -- root of the first volume of that name, or has nothing where there is none, and goes to the
    -- child of the next name of each node that it has reached, where the splitting of strings takes
    -- apart what delimiters join.
    pub lookup-path_of :
        (es : List (List ℕ × Volume)) (vol n : List ℕ) (names : List (List ℕ))
        → c.volume_cnt ≡ length es
        → HasVolumes 0 es
        → vol ≢ []
        → All (IsName b'/') (n ∷ names)
        → path_of vol (b'/' ∷ slashed (n ∷ names)) >>= lookup l c
          ≡ descend (done (root_of vol es)) (n ∷ names)
    lookup-path_of es vol n names count has h ok =
        path_of-in_volume vol n names h ok ∙ lookup_volume-descend vol es (n ∷ names) count has

    path_from-slashed :
        (vol : List ℕ) (names : List (List ℕ))
        → All (IsName b'/') (vol ∷ names)
        → length names < 2 ^ 64
        → path_from l (b'/' ∷ slashed (vol ∷ names))
          ≡ done (record { volume = vol; path = slashed names })
    unfolding path_from
    path_from-slashed [] names ok short = absurd (ok.0.0 refl)
    path_from-slashed (x ∷ vol) names ok short = rw (
      good.split_rooted b'/' (x ∷ vol) names ok,
      get-head (x ∷ vol) names,
      join-joined names (b'/' ∷ []) short,
      or-true (is_empty (slashed names)),
    )

    -- For a path as one string, the volume and fewer than 2^64 names behind it, `lookup` looks up
    -- the volume and then the names but the first: the node of the first name is not looked up,
    -- where the splitting of strings takes apart what delimiters join.
    pub lookup-path_from :
        (vol : List ℕ) (names : List (List ℕ))
        → All (IsName b'/') (vol ∷ names)
        → length names < 2 ^ 64
        → path_from l (b'/' ∷ slashed (vol ∷ names)) >>= lookup l c
          ≡ lookup_volume l c vol >>= in_volume (drop 1 names)
    lookup-path_from vol names ok short =
        ap (λ p. p >>= lookup l c) (path_from-slashed vol names ok short)
        ∙ (lookup-names_of vol (slashed names) ok.0.0
            ∙ ap (λ ns. lookup_volume l c vol >>= in_volume ns) (slashed-names_of names ok.1))

    -- The lookup of a child is the child of the lookup.
    pub lookup-child_named :
        (vol n m : List ℕ) (names : List (List ℕ))
        → vol ≢ []
        → All (IsName b'/') (n ∷ (names ++ (m ∷ [])))
        → All (IsName b'/') (n ∷ names)
        → path_of vol (b'/' ∷ slashed (n ∷ (names ++ (m ∷ [])))) >>= lookup l c
          ≡ (path_of vol (b'/' ∷ slashed (n ∷ names)) >>= lookup l c) >>= then_child m
    lookup-child_named vol n m names h ok ok' =
        path_of-in_volume vol n (names ++ (m ∷ [])) h ok
        ∙ (bind_cong (lookup_volume l c vol) _ _ same
            ∙ (sym (bind_assoc (lookup_volume l c vol) (in_volume (n ∷ names)) (then_child m))
                ∙ ap (λ o. o >>= then_child m) (sym (path_of-in_volume vol n names h ok'))))
      where
        same :
            (o : Option Volume)
            → in_volume (n ∷ (names ++ (m ∷ []))) o ≡ in_volume (n ∷ names) o >>= then_child m
        same none = refl
        same (some v) = walk-append (volume_node v) (n ∷ names) m

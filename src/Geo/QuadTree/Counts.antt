-- ===== src/Geo/QuadTree/Counts.antt =====
-- How many objects a tree of internal/geo/quadtree.go holds before and after an insertion.
use flybeeper_com_map_fanet.Prelude.{
  ℕ, zero, suc, ◌+◌, ◌≤◌, ◌<◌, ◌≡◌, sym, subst, ap, Bool, true, false, ◌&&◌, List, [], ◌∷◌, ◌++◌,
  arith, ltb, length, tally, tally-append, All, All-append, if◌then◌else◌, Bool-cases, inl, inr,
  Float,
}
use flybeeper_com_map_fanet.Geo.QuadTree.Bounds.{
  Object, Bounds, Quadrant, nw, ne, sw, se, holds, quadrant_of, child_bounds, IsOrdered,
}
use flybeeper_com_map_fanet.Geo.QuadTree.Node.{
  Node, leaf, fork, empty_child, insert_into_child, move_all, split, insert_with, insert_fuel,
  insert, node_capacity, max_depth, should_split,
}
use flybeeper_com_map_fanet.Geo.QuadTree.Frames.{IsFramed, child_bounds-IsFramed, holds-child}
use flybeeper_com_map_fanet.Geo.QuadTree.Shape.{
  count, IsShaped, Insertion, KeepsEvery, insert_fuel-Every,
}
use flybeeper_com_map_fanet.Geo.QuadTree.Inserts.{
  KeepsShape, insert_into_child-shape, insert_fuel-shape, choose, choose-count,
}

abbrev IsFork : {F : Type 0} → Node F → Type 0
IsFork (leaf b d os) = ⊥
IsFork (fork b d n1 n2 n3 n4) = Unit

module _ {F : Type 0} ⦃fl : Float F⦄ (laws : IsOrdered F) where
  -- One more object that passes the test, if the bounds hold it.
  abbrev pub added : (Object F → Bool) → Bounds F → Object F → ℕ
  added p b o = if holds b o then (if p o then 1 else 0) else 0

  abbrev CountsAt : Insertion F → ℕ → Type 0
  CountsAt g d =
      (p : Object F → Bool) (b : Bounds F) (o : Object F) (n : Node F)
      → IsFramed b
      → IsShaped b d n
      → count p (g o n) ≡ added p b o + count p n

  insert_into_child-IsFork :
      (g : Insertion F) (o : Object F) (n : Node F) → IsFork n → IsFork (insert_into_child g o n)
  unfolding insert_into_child
  insert_into_child-IsFork g o (leaf b d os) h = h
  insert_into_child-IsFork g o (fork b d n1 n2 n3 n4) h =
      elim (quadrant_of b o)
        as (λ q. IsFork (
          choose q (fork b d (g o n1) n2 n3 n4) (fork b d n1 (g o n2) n3 n4)
            (fork b d n1 n2 (g o n3) n4) (fork b d n1 n2 n3 (g o n4)))) [
              | nw ↦ tt
              | ne ↦ tt
              | sw ↦ tt
              | se ↦ tt
            ]

  -- Into the child of its quadrant an object is always added.
  child-added :
      (p : Object F → Bool) (b b' : Bounds F) (o : Object F) (q : Quadrant)
      → IsFramed b
      → holds b o ≡ true
      → b' ≡ b
      → quadrant_of b' o ≡ q
      → added p (child_bounds b q) o ≡ (if p o then 1 else 0)
  child-added p b b' o q f h eb e =
      let e' : quadrant_of b o ≡ q = subst (λ x. quadrant_of x o ≡ q) eb e in
      let inside : holds (child_bounds b q) o ≡ true =
        subst (λ x. holds (child_bounds b x) o ≡ true) e' (holds-child laws b o f h) in
      rw inside

  insert_into_child-count :
      (g : Insertion F) (p : Object F → Bool) (b : Bounds F) (d : ℕ) (o : Object F) (n : Node F)
      → CountsAt g (suc d)
      → IsFramed b
      → holds b o ≡ true
      → IsFork n
      → IsShaped b d n
      → count p (insert_into_child g o n) ≡ (if p o then 1 else 0) + count p n
  unfolding insert_into_child
  insert_into_child-count g p b d o (leaf b' d' os) c f h k s = absurd k
  insert_into_child-count g p b d o (fork b' d' n1 n2 n3 n4) c f h k (eb, ed, s1, s2, s3, s4) =
      let child = λ (q : Quadrant). child-added p b b' o q f h eb in
      let framed = λ (q : Quadrant). child_bounds-IsFramed laws b q f in
      choose-count b b' d d' p (quadrant_of b' o) _ n1 n2 n3 n4 (g o n1) (g o n2) (g o n3) (g o n4)
        (λ e. omega (arith, child nw e, c p (child_bounds b nw) o n1 (framed nw) s1.0))
        (λ e. omega (arith, child ne e, c p (child_bounds b ne) o n2 (framed ne) s2.0))
        (λ e. omega (arith, child sw e, c p (child_bounds b sw) o n3 (framed sw) s3.0))
        (λ e. omega (arith, child se e, c p (child_bounds b se) o n4 (framed se) s4.0))

  -- An insertion that keeps the shape and, below the deepest node that splits, counts.
  record IsGood (g : Insertion F) (d : ℕ) : Type 1 where
    keeps : KeepsEvery g
    shape : KeepsShape laws g
    counts : (d' : ℕ) → d ≤ d' → d' < max_depth → CountsAt g (suc d')

  move_all-count :
      (g : Insertion F) (p : Object F → Bool) (b : Bounds F) (d d' : ℕ) (os : List (Object F))
      (n : Node F)
      → IsGood g d
      → d ≤ d'
      → d' < max_depth
      → IsFramed b
      → All (λ x. holds b x ≡ true) os
      → IsFork n
      → IsShaped b d' n
      → count p (move_all g os n) ≡ tally p os + count p n
  unfolding move_all
  move_all-count g p b d d' [] n good le lt f all k s = omega arith
  move_all-count g p b d d' (o ∷ os) n good le lt f all k s = omega (
    arith,
    move_all-count g p b d d' os (insert_into_child g o n) good le lt f all.1
        (insert_into_child-IsFork g o n k)
        (insert_into_child-shape laws g good.keeps good.shape b d' o n f all.0 s),
    insert_into_child-count g p b d' o n (good.counts d' le lt) f all.0 k s,
  )

  split-count :
      (g : Insertion F) (p : Object F → Bool) (b : Bounds F) (d d' : ℕ) (b0 : Bounds F) (d0 : ℕ)
      (os : List (Object F))
      → IsGood g d
      → d ≤ d'
      → d' < max_depth
      → IsFramed b
      → All (λ x. holds b x ≡ true) os
      → b0 ≡ b
      → d0 ≡ d'
      → count p (split g b0 d0 os) ≡ tally p os
  unfolding split
  split-count g p b d d' b0 d0 os good le lt f all eb ed =
      let up : d0 + 1 ≡ suc d' = omega arith in
      omega (
        arith,
        move_all-count g p b d d' os
            (fork b0 d0 (empty_child b0 d0 nw) (empty_child b0 d0 ne) (empty_child b0 d0 sw)
              (empty_child b0 d0 se))
            good le lt f all tt
            (
              eb,
              ed,
              ((ap (λ x. child_bounds x nw) eb, up, tt), tt),
              ((ap (λ x. child_bounds x ne) eb, up, tt), tt),
              ((ap (λ x. child_bounds x sw) eb, up, tt), tt),
              ((ap (λ x. child_bounds x se) eb, up, tt), tt),
            ),
      )

  should_split-depth :
      (b : Bounds F) (d : ℕ) (x : Bool) → (x && should_split b d) ≡ true → d < max_depth
  unfolding should_split
  should_split-depth b d x e = ground arith

  insert_with-count :
      (g : Insertion F) (d d' : ℕ) → IsGood g d → d ≤ d' → CountsAt (insert_with g) d'
  unfolding insert_with
  insert_with-count g d d' good le p b o (leaf b0 d0 os) f (eb, ed, all) =
      elim (Bool-cases (holds b o)) [
        | inl inside ↦
            let inside0 : holds b0 o ≡ true = subst (λ x. holds x o ≡ true) (sym eb) inside in
            let os' : List (Object F) = os ++ (o ∷ []) in
            let new : All (λ x. holds b x ≡ true) os' =
              All-append (λ x. holds b x ≡ true) os (o ∷ []) all (inside, tt) in
            let more : tally p os' ≡ (if p o then 1 else 0) + tally p os =
              omega (arith, tally-append p os (o ∷ [])) in
            rw inside (
              rw inside0 (elim (Bool-cases (ltb node_capacity (length os') && should_split b0 d0)) [
                | inl e ↦ rw e (
                    omega (
                      arith,
                      split-count g p b d d' b0 d0 os' good le
                          (subst (λ x. x < max_depth) ed (should_split-depth b0 d0 _ e)) f new eb
                          ed,
                    ))
                | inr e ↦ rw e more
              ]))
        | inr outside ↦
            let outside0 : holds b0 o ≡ false = subst (λ x. holds x o ≡ false) (sym eb) outside in
            rw outside (rw outside0 (omega arith))
      ]
  insert_with-count g d d' good le p b o (fork b0 d0 n1 n2 n3 n4) f (eb, ed, s1, s2, s3, s4) =
      elim (Bool-cases (holds b o)) [
        | inl inside ↦
            let inside0 : holds b0 o ≡ true = subst (λ x. holds x o ≡ true) (sym eb) inside in
            let child = λ (q : Quadrant). child-added p b b0 o q f inside eb in
            let framed = λ (q : Quadrant). child_bounds-IsFramed laws b q f in
            let up : d ≤ suc d' = omega arith in
            rw inside (
              rw inside0 (
                choose-count b b0 d' d0 p (quadrant_of b0 o) _ n1 n2 n3 n4 (insert_with g o n1)
                  (insert_with g o n2) (insert_with g o n3) (insert_with g o n4)
                  (λ e. omega (
                    arith,
                    child nw e,
                    insert_with-count g d (suc d') good up p (child_bounds b nw) o n1 (framed nw)
                        s1.0,
                  ))
                  (λ e. omega (
                    arith,
                    child ne e,
                    insert_with-count g d (suc d') good up p (child_bounds b ne) o n2 (framed ne)
                        s2.0,
                  ))
                  (λ e. omega (
                    arith,
                    child sw e,
                    insert_with-count g d (suc d') good up p (child_bounds b sw) o n3 (framed sw)
                        s3.0,
                  ))
                  (λ e. omega (
                    arith,
                    child se e,
                    insert_with-count g d (suc d') good up p (child_bounds b se) o n4 (framed se)
                        s4.0,
                  ))))
        | inr outside ↦
            let outside0 : holds b0 o ≡ false = subst (λ x. holds x o ≡ false) (sym eb) outside in
            rw outside (rw outside0 (omega arith))
      ]

  insert_fuel-count : (fuel d : ℕ) → max_depth ≤ d + fuel → CountsAt (insert_fuel fuel) d
  unfolding insert_fuel
  insert_fuel-count zero d enough =
      insert_with-count _ d d
        (record {
          keeps = λ P o n h e. e;
          shape = λ b d o n f s. s;
          counts = λ d' le lt. absurd (omega arith);
        })
        (omega arith)
  insert_fuel-count (suc fuel) d enough =
      insert_with-count _ d d
        (record {
          keeps = insert_fuel-Every fuel;
          shape = insert_fuel-shape laws fuel;
          counts = λ d' le lt. insert_fuel-count fuel (suc d') (omega arith);
        })
        (omega arith)

  -- Given the laws of the order on floats, in a tree of good shape in framed bounds, from the root at
  -- depth 0, `insert` adds its object once if the bounds of the root hold it, and else not, and it
  -- neither loses nor doubles any other object, for every test `p` of objects.
  pub insert-count :
      (p : Object F → Bool) (b : Bounds F) (o : Object F) (n : Node F)
      → IsFramed b
      → IsShaped b 0 n
      → count p (insert o n) ≡ (if holds b o then (if p o then 1 else 0) else 0) + count p n
  insert-count p b o n f s = insert_fuel-count max_depth 0 (omega arith) p b o n f s

  -- Given the laws of the order on floats, `insert` keeps the shape of a tree in framed bounds: every node has the quarter and the depth of
  -- its place, and every object lies in its node's bounds, in the quadrant it was sent to.
  pub insert-IsShaped :
      (b : Bounds F) (d : ℕ) (o : Object F) (n : Node F)
      → IsFramed b
      → IsShaped b d n
      → IsShaped b d (insert o n)
  insert-IsShaped b d o n f s = insert_fuel-shape laws max_depth b d o n f s

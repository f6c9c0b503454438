-- ===== src/Geo/QuadTree/Inserts.antt =====
-- `insert` and `split` of internal/geo/quadtree.go and the invariant of the tree.
use flybeeper_com_map_fanet.Prelude.{
  ℕ, zero, suc, ◌+◌, ◌≡◌, refl, subst, ap, Bool, true, ◌&&◌, List, [], ◌∷◌, ◌++◌, arith, ltb,
  length, All, All-append, if_both, Bool-cases, inl, inr, Float,
}
use flybeeper_com_map_fanet.Geo.QuadTree.Bounds.{
  Object, Bounds, Quadrant, nw, ne, sw, se, holds, quadrant_of, child_bounds, IsOrdered,
}
use flybeeper_com_map_fanet.Geo.QuadTree.Node.{
  Node, leaf, fork, empty_child, insert_into_child, move_all, split, insert_with, insert_fuel,
  node_capacity, should_split,
}
use flybeeper_com_map_fanet.Geo.QuadTree.Frames.{IsFramed, child_bounds-IsFramed}
use flybeeper_com_map_fanet.Geo.QuadTree.Shape.{
  Every, count, Sits, IsShaped, Insertion, KeepsEvery, insert_with-Every, insert_fuel-Every,
}

-- The node with the child of one quadrant replaced, for each quadrant.
abbrev pub choose {ℓ} : {A : Type ℓ} → Quadrant → A → A → A → A → A
choose q a1 a2 a3 a4 = elim q [ nw ↦ a1 | ne ↦ a2 | sw ↦ a3 | se ↦ a4 ]

module _ {F : Type 0} ⦃fl : Float F⦄ where
  -- A child at its place.
  abbrev pub Part : Bounds F → ℕ → Quadrant → Node F → Type 0
  Part b d q n = IsShaped (child_bounds b q) (suc d) n × Every (Sits b q) n

module _ {F : Type 0} ⦃fl : Float F⦄ (b b0 : Bounds F) (d d0 : ℕ) where
  pub choose-IsShaped :
      (q : Quadrant) (n1 n2 n3 n4 m1 m2 m3 m4 : Node F)
      → IsShaped b d (fork b0 d0 n1 n2 n3 n4)
      → (q ≡ nw → Part b d nw m1)
      → (q ≡ ne → Part b d ne m2)
      → (q ≡ sw → Part b d sw m3)
      → (q ≡ se → Part b d se m4)
      → IsShaped b d (
          choose q
            (fork b0 d0 m1 n2 n3 n4)
            (fork b0 d0 n1 m2 n3 n4)
            (fork b0 d0 n1 n2 m3 n4)
            (fork b0 d0 n1 n2 n3 m4))
  choose-IsShaped nw n1 n2 n3 n4 m1 m2 m3 m4 (eb, ed, s1, s2, s3, s4) p1 p2 p3 p4 =
      (eb, ed, p1 refl, s2, s3, s4)
  choose-IsShaped ne n1 n2 n3 n4 m1 m2 m3 m4 (eb, ed, s1, s2, s3, s4) p1 p2 p3 p4 =
      (eb, ed, s1, p2 refl, s3, s4)
  choose-IsShaped sw n1 n2 n3 n4 m1 m2 m3 m4 (eb, ed, s1, s2, s3, s4) p1 p2 p3 p4 =
      (eb, ed, s1, s2, p3 refl, s4)
  choose-IsShaped se n1 n2 n3 n4 m1 m2 m3 m4 (eb, ed, s1, s2, s3, s4) p1 p2 p3 p4 =
      (eb, ed, s1, s2, s3, p4 refl)

  pub choose-count :
      (p : Object F → Bool) (q : Quadrant) (k : ℕ) (n1 n2 n3 n4 m1 m2 m3 m4 : Node F)
      → (q ≡ nw → count p m1 ≡ k + count p n1)
      → (q ≡ ne → count p m2 ≡ k + count p n2)
      → (q ≡ sw → count p m3 ≡ k + count p n3)
      → (q ≡ se → count p m4 ≡ k + count p n4)
      → count p (
          choose q
            (fork b0 d0 m1 n2 n3 n4)
            (fork b0 d0 n1 m2 n3 n4)
            (fork b0 d0 n1 n2 m3 n4)
            (fork b0 d0 n1 n2 n3 m4))
        ≡ k + count p (fork b0 d0 n1 n2 n3 n4)
  choose-count p nw k n1 n2 n3 n4 m1 m2 m3 m4 p1 p2 p3 p4 = omega (arith, p1 refl)
  choose-count p ne k n1 n2 n3 n4 m1 m2 m3 m4 p1 p2 p3 p4 = omega (arith, p2 refl)
  choose-count p sw k n1 n2 n3 n4 m1 m2 m3 m4 p1 p2 p3 p4 = omega (arith, p3 refl)
  choose-count p se k n1 n2 n3 n4 m1 m2 m3 m4 p1 p2 p3 p4 = omega (arith, p4 refl)

module _ {F : Type 0} ⦃fl : Float F⦄ (laws : IsOrdered F) where
  abbrev pub KeepsShape : Insertion F → Type 0
  KeepsShape g =
      (b : Bounds F) (d : ℕ) (o : Object F) (n : Node F)
      → IsFramed b
      → IsShaped b d n
      → IsShaped b d (g o n)

  module _ (g : Insertion F) (keeps : KeepsEvery g) (shape : KeepsShape g) where
    grown :
        (b : Bounds F) (d : ℕ) (o : Object F) (b' : Bounds F)
        → IsFramed b
        → holds b o ≡ true
        → b' ≡ b
        → (q : Quadrant) (n : Node F) → Part b d q n
        → quadrant_of b' o ≡ q
        → Part b d q (g o n)
    grown b d o b' f h eb q n part e = (
      shape (child_bounds b q) (suc d) o n (child_bounds-IsFramed laws b q f) part.0,
      keeps (Sits b q) o n (h, subst (λ x. quadrant_of x o ≡ q) eb e) part.1,
    )

    pub insert_into_child-shape :
        (b : Bounds F) (d : ℕ) (o : Object F) (n : Node F)
        → IsFramed b
        → holds b o ≡ true
        → IsShaped b d n
        → IsShaped b d (insert_into_child g o n)
    unfolding insert_into_child
    insert_into_child-shape b d o (leaf b' d' os) f h s = s
    insert_into_child-shape b d o (fork b' d' n1 n2 n3 n4) f h (eb, ed, s1, s2, s3, s4) =
        choose-IsShaped b b' d d' (quadrant_of b' o) n1 n2 n3 n4 (g o n1) (g o n2) (g o n3) (g o n4)
          (eb, ed, s1, s2, s3, s4) (grown b d o b' f h eb nw n1 s1) (grown b d o b' f h eb ne n2 s2)
          (grown b d o b' f h eb sw n3 s3) (grown b d o b' f h eb se n4 s4)

    move_all-shape :
        (b : Bounds F) (d : ℕ) (os : List (Object F)) (n : Node F)
        → IsFramed b
        → All (λ o. holds b o ≡ true) os
        → IsShaped b d n
        → IsShaped b d (move_all g os n)
    unfolding move_all
    move_all-shape b d [] n f h s = s
    move_all-shape b d (o ∷ os) n f h s =
        move_all-shape b d os (insert_into_child g o n) f h.1
          (insert_into_child-shape b d o n f h.0 s)

    -- The child that the object was sent to, given its shape and its objects after the insertion.
    placed :
        (b : Bounds F) (d : ℕ) (o : Object F) (b' : Bounds F) (q : Quadrant) (m : Node F)
        → holds b o ≡ true
        → b' ≡ b
        → IsShaped (child_bounds b q) (suc d) m
        → (Sits b q o → Every (Sits b q) m)
        → quadrant_of b' o ≡ q
        → Part b d q m
    placed b d o b' q m h eb s k e = (s, k (h, subst (λ x. quadrant_of x o ≡ q) eb e))

    split-shape :
        (b : Bounds F) (d : ℕ) (b' : Bounds F) (d' : ℕ) (os : List (Object F))
        → IsFramed b
        → b' ≡ b
        → d' ≡ d
        → All (λ x. holds b x ≡ true) os
        → IsShaped b d (split g b' d' os)
    unfolding split
    split-shape b d b' d' os f eb ed all =
        let up : d' + 1 ≡ suc d = omega arith in
        move_all-shape b d os
          (fork b' d' (empty_child b' d' nw) (empty_child b' d' ne) (empty_child b' d' sw)
            (empty_child b' d' se))
          f all
          (
            eb,
            ed,
            ((ap (λ x. child_bounds x nw) eb, up, tt), tt),
            ((ap (λ x. child_bounds x ne) eb, up, tt), tt),
            ((ap (λ x. child_bounds x sw) eb, up, tt), tt),
            ((ap (λ x. child_bounds x se) eb, up, tt), tt),
          )

    insert_with-shape : KeepsShape (insert_with g)
    unfolding insert_with
    insert_with-shape b d o (leaf b' d' os) f (eb, ed, all) = elim (Bool-cases (holds b' o)) [
      | inl inside ↦
          let h : holds b o ≡ true = subst (λ x. holds x o ≡ true) eb inside in
          let os' : List (Object F) = os ++ (o ∷ []) in
          let new : All (λ x. holds b x ≡ true) os' =
            All-append (λ x. holds b x ≡ true) os (o ∷ []) all (h, tt) in
          rw inside (
            if_both (IsShaped b d) (ltb node_capacity (length os') && should_split b' d')
              {x = split g b' d' os'} {y = leaf b' d' os'} (split-shape b d b' d' os' f eb ed new)
              (eb, ed, new))
      | inr outside ↦ rw outside (eb, ed, all)
    ]
    insert_with-shape b d o (fork b' d' n1 n2 n3 n4) f (eb, ed, s1, s2, s3, s4) =
        elim (Bool-cases (holds b' o)) [
          | inl inside ↦
              let h : holds b o ≡ true = subst (λ x. holds x o ≡ true) eb inside in
              rw inside (
                choose-IsShaped b b' d d' (quadrant_of b' o) n1 n2 n3 n4 (insert_with g o n1)
                  (insert_with g o n2) (insert_with g o n3) (insert_with g o n4)
                  (eb, ed, s1, s2, s3, s4)
                  (placed b d o b' nw _ h eb
                    (insert_with-shape (child_bounds b nw) (suc d) o n1
                      (child_bounds-IsFramed laws b nw f) s1.0)
                    (λ k. insert_with-Every g keeps (Sits b nw) o n1 k s1.1))
                  (placed b d o b' ne _ h eb
                    (insert_with-shape (child_bounds b ne) (suc d) o n2
                      (child_bounds-IsFramed laws b ne f) s2.0)
                    (λ k. insert_with-Every g keeps (Sits b ne) o n2 k s2.1))
                  (placed b d o b' sw _ h eb
                    (insert_with-shape (child_bounds b sw) (suc d) o n3
                      (child_bounds-IsFramed laws b sw f) s3.0)
                    (λ k. insert_with-Every g keeps (Sits b sw) o n3 k s3.1))
                  (placed b d o b' se _ h eb
                    (insert_with-shape (child_bounds b se) (suc d) o n4
                      (child_bounds-IsFramed laws b se f) s4.0)
                    (λ k. insert_with-Every g keeps (Sits b se) o n4 k s4.1)))
          | inr outside ↦ rw outside (eb, ed, s1, s2, s3, s4)
        ]

  -- An insertion at any fuel keeps the shape of the tree.
  pub insert_fuel-shape : (fuel : ℕ) → KeepsShape (insert_fuel fuel)
  unfolding insert_fuel
  insert_fuel-shape zero = insert_with-shape _ (λ P o n h e. e) (λ b d o n f s. s)
  insert_fuel-shape (suc fuel) =
      insert_with-shape _ (insert_fuel-Every fuel) (insert_fuel-shape fuel)

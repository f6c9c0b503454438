-- ===== src/Geo/QuadTree/Queries.antt =====
-- `query` of internal/geo/quadtree.go, with its pruning of subtrees, against a scan of all objects.
use flybeeper_com_map_fanet.Prelude.{
  All-append, ℕ, suc, ◌≡◌, refl, sym, subst, true, false, List, [], ◌∷◌, ◌++◌, All, keep_if,
  keep_if-append, keep_if-eq-nil, Bool-cases, inl, inr, Float,
}
use flybeeper_com_map_fanet.Geo.QuadTree.Bounds.{
  Object, Bounds, nw, ne, sw, se, holds, intersects, child_bounds, IsOrdered,
}
use flybeeper_com_map_fanet.Geo.QuadTree.Node.{Node, leaf, fork, query}
use flybeeper_com_map_fanet.Geo.QuadTree.Frames.{intersects-of_holds}
use flybeeper_com_map_fanet.Geo.QuadTree.Shape.{elements, Every, IsShaped}

module _ {A : Type 0} where
  All-map : (P Q : A → Type 0) → ((x : A) → P x → Q x) → (xs : List A) → All P xs → All Q xs
  All-map P Q f [] h = tt
  All-map P Q f (x ∷ xs) h = (f x h.0, All-map P Q f xs h.1)

module _ {F : Type 0} where
  Every-elements :
      (P Q : Object F → Type 0)
      → ((o : Object F) → P o → Q o)
      → (n : Node F) → Every P n
      → All Q (elements n)
  Every-elements P Q f (leaf b d os) h = All-map P Q f os h
  Every-elements P Q f (fork b d n1 n2 n3 n4) (h1, h2, h3, h4) =
      All-append Q _ _ (Every-elements P Q f n1 h1) (
        All-append Q _ _ (Every-elements P Q f n2 h2)
          (All-append Q _ _ (Every-elements P Q f n3 h3) (Every-elements P Q f n4 h4)))

module _ {F : Type 0} ⦃fl : Float F⦄ (laws : IsOrdered F) where
  All-elements :
      (b : Bounds F) (d : ℕ) (n : Node F)
      → IsShaped b d n
      → All (λ o. holds b o ≡ true) (elements n)
  All-elements b d (leaf b' d' os) (eb, ed, all) = all
  All-elements b d (fork b' d' n1 n2 n3 n4) (eb, ed, s1, s2, s3, s4) =
      let inside = λ (o : Object F). holds b o ≡ true in
      All-append inside _ _ (Every-elements _ inside (λ o h. h.0) n1 s1.1) (
        All-append inside _ _ (Every-elements _ inside (λ o h. h.0) n2 s2.1) (
          All-append inside _ _ (Every-elements _ inside (λ o h. h.0) n3 s3.1)
            (Every-elements _ inside (λ o h. h.0) n4 s4.1)))

  pruned :
      (b b' area : Bounds F) (os : List (Object F))
      → b' ≡ b
      → All (λ o. holds b o ≡ true) os
      → intersects b' area ≡ false
      → [] ≡ keep_if (holds area) os
  pruned b b' area os eb all e = sym (
      keep_if-eq-nil (holds area) os (
        All-map _ _
          (λ o h. intersects-of_holds laws b area o h (subst (λ x. intersects x area ≡ false) eb e))
          os all))

  -- Given the laws of the order on floats, on a tree of good shape in any bounds, `query` gives exactly the objects that a scan of all its
  -- objects with `Contains` gives, in the order of the nodes: no pruned subtree had an object of
  -- the area.
  pub query-eq-scan :
      (area b : Bounds F) (d : ℕ) (n : Node F)
      → IsShaped b d n
      → query area n ≡ keep_if (holds area) (elements n)
  unfolding query
  query-eq-scan area b d (leaf b' d' os) (eb, ed, all) = elim (Bool-cases (intersects b' area)) [
    | inl e ↦ rw e refl
    | inr e ↦ rw e (pruned b b' area os eb all e)
  ]
  query-eq-scan area b d (fork b' d' n1 n2 n3 n4) s = elim (Bool-cases (intersects b' area)) [
    | inl e ↦
        let (eb, ed, s1, s2, s3, s4) = s in
        rw e (
          cc (
            query-eq-scan area (child_bounds b nw) (suc d) n1 s1.0,
            query-eq-scan area (child_bounds b ne) (suc d) n2 s2.0,
            query-eq-scan area (child_bounds b sw) (suc d) n3 s3.0,
            query-eq-scan area (child_bounds b se) (suc d) n4 s4.0,
            keep_if-append (holds area) (elements n1) (elements n2 ++ (elements n3 ++ elements n4)),
            keep_if-append (holds area) (elements n2) (elements n3 ++ elements n4),
            keep_if-append (holds area) (elements n3) (elements n4),
          ))
    | inr e ↦ rw e (pruned b b' area _ s.0 (All-elements b d (fork b' d' n1 n2 n3 n4) s) e)
  ]

-- ===== src/Chunk/Store/Abstract/Batches.antt =====
-- chunk/chunk_store.go: what the batches that `Put` writes leave in the index.
use mathlib.Core.List.{Permᴰ, append_assoc}
use mathlib.Core.List.Permᴰ
use mathlib.Core.Path.{subst}
use frankenstein.Prelude.{
  ◌≡◌, ◌≤◌, arith, length, refl, sym, ◌∙◌, List, [], ◌∷◌, ◌++◌, All, All-append, All-zip,
}
use frankenstein.Prelude.Order.{Text}
use frankenstein.Prelude.Sort.{All-perm}
use frankenstein.Prelude.Pairwise.{Pairwise, All-split, split-Pairwise, flip-All}
use frankenstein.Chunk.Batch.{concat}
use frankenstein.Chunk.Store.{Deps, WriteRequest}
use frankenstein.Chunk.Store.Objects.{run_all, batch_write_dynamo}
use frankenstein.Chunk.Store.Writes.{NoErrors}
use frankenstein.Chunk.Store.Abstract.Keys.{AreApart}
use frankenstein.Chunk.Store.Abstract.Services.{Services, AreApart-flip, not_put-apart}

module _ {A : Type 0} where
  fronts : (a b : List A) {xs ys : List A} → a ≡ b → Permᴰ xs ys → Permᴰ (a ++ xs) (b ++ ys)
  fronts a b {xs} {ys} e d = subst (λ c. Permᴰ (a ++ xs) (c ++ ys)) e (Permᴰ.append_left a d)

  swapped : (a b c : List A) → Permᴰ (a ++ (b ++ c)) (b ++ (a ++ c))
  swapped a b c =
      subst (λ xs. Permᴰ xs (b ++ (a ++ c))) (append_assoc a b c)
        (subst (Permᴰ ((a ++ b) ++ c)) (append_assoc b a c)
          (Permᴰ.append_right c (Permᴰ.append_comm a b)))

  pub concat-perm : {xs ys : List (List A)} → Permᴰ xs ys → Permᴰ (concat xs) (concat ys)
  concat-perm Permᴰ.nil = Permᴰ.nil
  concat-perm (Permᴰ.cons e d) = fronts _ _ e (concat-perm d)
  concat-perm (Permᴰ.swap {l = l} e f) =
      Permᴰ.trans (swapped _ _ (concat l)) (fronts _ _ f (fronts _ _ e (Permᴰ.refl (concat l))))
  concat-perm (Permᴰ.trans d d') = Permᴰ.trans (concat-perm d) (concat-perm d')

module _ {Time W : Type 0} (deps : Deps Time W) (services : Services deps) where
  abbrev pub KeepsObjects : W → W → Type 0
  KeepsObjects w w1 =
      ((k : Text) → services.object w1 k ≡ services.object w k)
      × ((k : Text) → services.cached w1 k ≡ services.cached w k)

  -- Batches never take back what was given back.
  run_all-given_back :
      (bs : List (List WriteRequest)) (w : W)
      → NoErrors (run_all (batch_write_dynamo deps) bs w).0
      → (services.table w).given_back
        ≤ (services.table (run_all (batch_write_dynamo deps) bs w).1).given_back
  unfolding run_all
  run_all-given_back [] w h = omega arith
  run_all-given_back (b ∷ bs) w h =
      let w1 = (batch_write_dynamo deps b w).1 in
      omega (arith, run_all-given_back bs w1 h.1, services.batch_write_back b w h.0)

  no_length : {A : Type 0} (xs : List A) → length xs ≡ 0 → xs ≡ []
  no_length [] e = refl
  no_length (x ∷ xs) e = cc

  -- Batches of new keys, of which nothing is given back
  pub run_all-batches :
      (bs : List (List WriteRequest)) (w : W)
      → Pairwise AreApart (concat bs)
      → All (λ r. All (AreApart r) ((services.table w).entries)) (concat bs)
      → NoErrors (run_all (batch_write_dynamo deps) bs w).0
      → let w1 = (run_all (batch_write_dynamo deps) bs w).1 in
        (services.table w1).given_back ≡ (services.table w).given_back
        → Permᴰ ((services.table w1).entries) (concat bs ++ (services.table w).entries)
          × KeepsObjects w w1
  unfolding run_all
  run_all-batches [] w p new h g =
      (Permᴰ.refl ((services.table w).entries), ((λ k. refl), λ k. refl))
  run_all-batches (b ∷ bs) w p new h g =
      let (apart, pb, later) = split-Pairwise AreApart b (concat bs) p in
      let (new_b, new_later) =
        All-split (λ r. All (AreApart r) ((services.table w).entries)) b (concat bs) new in
      let w1 = (deps.batch_write_item b w).2 in
      let grows = run_all-given_back bs w1 h.1 in
      let back = services.batch_write_back b w h.0 in
      let none_here = no_length (deps.batch_write_item b w).1 (omega (arith, grows, back, g)) in
      let (put, objects, cache) = services.batch_write_ok b w pb h.0 none_here in
      let unput =
        not_put-apart b ((services.table w).entries)
          (flip-All AreApart AreApart-flip b ((services.table w).entries) new_b) in
      let here : Permᴰ ((services.table w1).entries) (b ++ (services.table w).entries) =
        subst (λ rs. Permᴰ ((services.table w1).entries) (b ++ rs)) unput put in
      let still_new =
        All-zip
          (λ r in_b in_w.
            All-perm (AreApart r) here
              (All-append (AreApart r) b ((services.table w).entries) in_b in_w))
          (concat bs) (flip-All AreApart AreApart-flip b (concat bs) apart) new_later in
      let (rest, (objects', cache')) =
        run_all-batches bs w1 later still_new h.1 (omega (arith, grows, back, g)) in
      (
        Permᴰ.trans rest (
            Permᴰ.trans (Permᴰ.append_left (concat bs) here) (
              subst (Permᴰ (concat bs ++ (b ++ (services.table w).entries)))
                (sym (append_assoc b (concat bs) ((services.table w).entries)))
                (swapped (concat bs) b ((services.table w).entries)))),
        ((λ k. objects' k ∙ objects k), λ k. cache' k ∙ cache k),
      )

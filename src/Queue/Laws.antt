-- ===== src/Queue/Laws.antt =====
-- The linked queue behaves as a list: `add` at the end, `remove` at the front.
use osfinal_project.Prelude.{
  ℕ, ◌≡◌, ◌≢◌, refl, ap, sym, subst, ◌∙◌, arith, true, false, none, some, List, [], ◌∷◌, ◌++◌, ◌==◌,
  ◌||◌, if◌then◌else◌, update,
}
use osfinal_project.Chain.{has, Chain, end, link}
use osfinal_project.Queue.{Queue, add, remove, remove_all}

abbrev last_of : List ℕ → ℕ
last_of [] = 0
last_of (x ∷ []) = x
last_of (x ∷ y ∷ ys) = last_of (y ∷ ys)

-- The queue holds these threads, the first to come first.
pub record IsQueue (q : Queue) (xs : List ℕ) : Type 0 where
  pub chain : Chain q.next q.first xs
  pub ends : q.last ≡ last_of xs

pub has-append : (a : ℕ) (xs ys : List ℕ) → has a (xs ++ ys) ≡ (has a xs || has a ys)
has-append a [] ys = refl
has-append a (x ∷ xs) ys = ground (arith, has-append a xs ys)

last_of-append : (xs : List ℕ) (t : ℕ) → last_of (xs ++ (t ∷ [])) ≡ t
last_of-append [] t = refl
last_of-append (x ∷ []) t = refl
last_of-append (x ∷ y ∷ ys) t = last_of-append (y ∷ ys) t

mem_last : (x : ℕ) (xs : List ℕ) → has (last_of (x ∷ xs)) (x ∷ xs) ≡ true
mem_last x [] = ground arith
mem_last x (y ∷ ys) = ground (arith, mem_last y ys)

Chain-nil : {m : ℕ → ℕ} {p : ℕ} → Chain m p [] → p ≡ 0
Chain-nil end = refl

Chain-tail : {m : ℕ → ℕ} {p : ℕ} (y : ℕ) (ys : List ℕ) → Chain m p (y ∷ ys) → Chain m (m p) ys
Chain-tail y ys (link nz fresh c) = c

Chain-nonzero : {m : ℕ → ℕ} {p : ℕ} (y : ℕ) (ys : List ℕ) → Chain m p (y ∷ ys) → p ≢ 0
Chain-nonzero y ys (link nz fresh c) = nz

Chain-head : {m : ℕ → ℕ} {p : ℕ} (y : ℕ) (ys : List ℕ) → Chain m p (y ∷ ys) → p ≡ y
Chain-head y ys (link nz fresh c) = refl

-- Linking a new object `t` behind the last one, `z`, extends the chain.
Chain-extend :
    {m : ℕ → ℕ} {p : ℕ} (xs : List ℕ) (t z : ℕ)
    → Chain m p xs
    → p ≢ 0
    → t ≢ 0
    → has t xs ≡ false
    → z ≡ last_of xs
    → Chain (update (update m t 0) z t) p (xs ++ (t ∷ []))
Chain-extend [] t z end nz nt new at = absurd (nz refl)
Chain-extend {m} {p} (x ∷ []) t z (link pnz fresh c) nz nt new at = link pnz (ground arith) (
    subst (λ q. Chain (update (update m t 0) z t) q (t ∷ [])) (ground arith)
      (link nt refl (subst (λ q. Chain (update (update m t 0) z t) q []) (ground arith) end)))
Chain-extend {m} {p} (x ∷ y ∷ ys) t z (link pnz fresh c) nz nt new at =
    link pnz (ground (arith, has-append p (y ∷ ys) (t ∷ []))) (
      subst (λ q. Chain (update (update m t 0) z t) q ((y ∷ ys) ++ (t ∷ [])))
        (ground (arith, mem_last y ys))
        (Chain-extend (y ∷ ys) t z c (Chain-nonzero y ys c) nt (ground arith) at))

add_first :
    (q : Queue) (t : ℕ)
    → q.first ≡ 0
    → add q t ≡ record { first = t; last = t; next = update q.next t 0 }
unfolding add
add_first q t e = ground arith

add_behind :
    (q : Queue) (t : ℕ)
    → q.first ≢ 0
    → add q t ≡ record { first = q.first; last = t; next = update (update q.next t 0) q.last t }
unfolding add
add_behind q t ne = ground arith

-- `add` of a thread that is not null and not queued puts it at the end of the list of queued
-- threads.
pub add-append :
    {q : Queue} {xs : List ℕ} (t : ℕ)
    → IsQueue q xs
    → t ≢ 0
    → has t xs ≡ false
    → IsQueue (add q t) (xs ++ (t ∷ []))
add-append {q} {xs = []} t h nz new =
    subst (λ r. IsQueue r (t ∷ [])) (sym (add_first q t (Chain-nil h.chain)))
      (record {
        chain = link nz refl (subst (λ k. Chain (update q.next t 0) k []) (ground arith) end);
        ends = refl;
      })
add-append {q} {xs = y ∷ ys} t h nz new =
    let some_first = Chain-nonzero y ys h.chain in
    subst (λ r. IsQueue r ((y ∷ ys) ++ (t ∷ []))) (sym (add_behind q t some_first))
      (record {
        chain = Chain-extend (y ∷ ys) t q.last h.chain some_first nz new h.ends;
        ends = sym (last_of-append (y ∷ ys) t);
      })

remove_first :
    (q : Queue)
    → q.first ≢ 0
    → remove q ≡ (
      some q.first,
      record q { first = q.next q.first; last = if q.next q.first == 0 then 0 else q.last },
    )
unfolding remove
remove_first q ne = ground arith

rest_ends :
    {q : Queue} (x : ℕ) (xs : List ℕ)
    → IsQueue q (x ∷ xs)
    → (if q.next q.first == 0 then 0 else q.last) ≡ last_of xs
rest_ends x [] h = ground (arith, Chain-nil (Chain-tail x [] h.chain))
rest_ends x (y ∷ ys) h = ground (arith, Chain-nonzero y ys (Chain-tail x (y ∷ ys) h.chain), h.ends)

-- `remove` on a queue that is not empty returns the first thread, and leaves the queue of the
-- others.
pub remove-cons :
    {q : Queue} {x : ℕ} {xs : List ℕ}
    → IsQueue q (x ∷ xs)
    → ((remove q).0 ≡ some x) × IsQueue (remove q).1 xs
remove-cons {q} {x} {xs} h =
    let first = remove_first q (Chain-nonzero x xs h.chain) in
    (
      ap (λ r. r.0) first ∙ ap some (Chain-head x xs h.chain),
      subst (λ r. IsQueue r xs) (sym (ap (λ r. r.1) first))
          (record { chain = Chain-tail x xs h.chain; ends = rest_ends x xs h }),
    )

pub remove-nil : {q : Queue} → IsQueue q [] → remove q ≡ (none, q)
unfolding remove
remove-nil h = ground (arith, Chain-nil h.chain)

-- `remove_all` hands out the whole chain, and leaves an empty queue.
remove_all_lem :
    {q : Queue} {xs : List ℕ}
    → IsQueue q xs
    → Chain q.next (remove_all q).0 xs × IsQueue (remove_all q).1 []
unfolding remove_all
remove_all_lem h = (h.chain, record { chain = end; ends = refl })

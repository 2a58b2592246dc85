-- ===== src/Scheduler/Chain.antt =====
-- The linked nodes of a task queue as a list, and what the heap operations of src/scheduler.c do
-- to such a list.
use thread_management_librar.Base.{
  suc, ◌<◌, ◌≡◌, ◌≢◌, refl, Bool, true, false, ◌||◌, Option, none, some, List, [], ◌∷◌, ◌++◌, ◌∙◌,
  ap, arith, ◌==◌, length, size_mod,
}
use thread_management_librar.Scheduler.Store.{Ptr, null, Task, TaskNode, Store, write}

-- The address and the task of each node, from the head on.
abbrev pub Cells : Type 0
Cells = List (Ptr × Task)

abbrev pub has : Ptr → Cells → Bool
has a [] = false
has a ((p, t) ∷ cs) = (a == p) || has a cs

abbrev pub first : Cells → Ptr
first [] = null
first ((p, t) ∷ cs) = p

abbrev pub last : Cells → Ptr
last [] = null
last ((p, t) ∷ []) = p
last (c ∷ d ∷ cs) = last (d ∷ cs)

abbrev pub tasks : Cells → List Task
tasks [] = []
tasks ((p, t) ∷ cs) = t ∷ tasks cs

abbrev pub Heap : Type 0
Heap = Ptr → Option TaskNode

-- The nodes are linked in this order, are distinct, and the last link is NULL.
abbrev pub Chain : Heap → Cells → Type 0
Chain h [] = Unit
Chain h ((p, t) ∷ cs) =
    (p ≢ null)
    × (h p ≡ some (record { task = t; next = first cs }))
    × (has p cs ≡ false)
    × Chain h cs

pub record IsQueue (s : Store) (cs : Cells) : Type 0 where
  pub chain : Chain s.node cs
  pub head : s.queue.head ≡ first cs
  pub tail : s.queue.tail ≡ last cs
  pub counted : s.queue.count ≡ length cs
  pub fits : length cs < size_mod

-- A chain survives any change that spares its own nodes.
pub Chain-frame :
    (g h : Heap) (cs : Cells) → ((a : Ptr) → has a cs ≡ true → g a ≡ h a) → Chain h cs → Chain g cs
Chain-frame g h [] same c = tt
Chain-frame g h ((p, t) ∷ cs) same c =
    (c.0, same p (ground arith) ∙ c.1, c.2, Chain-frame g h cs (λ a i. same a (ground arith)) c.3)

pub Chain-write :
    (h : Heap) (p : Ptr) (n : Option TaskNode) (cs : Cells)
    → has p cs ≡ false
    → Chain h cs
    → Chain (write h p n) cs
Chain-write h p n cs out c = Chain-frame _ h cs (λ a i. ground arith) c

-- A node of a chain is allocated, so an address that is free is no node of it.
pub not_has_of_none : (h : Heap) (cs : Cells) (a : Ptr) → Chain h cs → h a ≡ none → has a cs ≡ false
not_has_of_none h [] a c e = refl
not_has_of_none h ((p, t) ∷ cs) a c e = ground (arith, not_has_of_none h cs a c.3)

pub has-append : (a : Ptr) (cs ds : Cells) → has a (cs ++ ds) ≡ (has a cs || has a ds)
has-append a [] ds = refl
has-append a (c ∷ cs) ds = ground (arith, has-append a cs ds)

has-last : (c : Ptr × Task) (cs : Cells) → has (last (c ∷ cs)) (c ∷ cs) ≡ true
has-last c [] = ground arith
has-last c (d ∷ cs) = ground (arith, has-last d cs)

pub ne-last : (c : Ptr × Task) (cs : Cells) (a : Ptr) → has a (c ∷ cs) ≡ false → a ≢ last (c ∷ cs)
ne-last c cs a out e = cc (out, ap (λ (b : Ptr). has b (c ∷ cs)) e, has-last c cs)

pub write_other : (h : Heap) (a p : Ptr) (n : Option TaskNode) → a ≢ p → write h p n a ≡ h a
write_other h a p n ne = ground arith

pub last-append : (cs : Cells) (p : Ptr) (t : Task) → last (cs ++ (p, t) ∷ []) ≡ p
last-append [] p t = refl
last-append (c ∷ []) p t = refl
last-append (c ∷ d ∷ cs) p t = last-append (d ∷ cs) p t

pub tasks-append : (cs ds : Cells) → tasks (cs ++ ds) ≡ tasks cs ++ tasks ds
tasks-append [] ds = refl
tasks-append (c ∷ cs) ds = ap (λ (ts : List Task). c.1 ∷ ts) (tasks-append cs ds)

pub length-tasks : (cs : Cells) → length (tasks cs) ≡ length cs
length-tasks [] = refl
length-tasks (c ∷ cs) = ap suc (length-tasks cs)

pub last-ne-null :
    (h : Heap) (c : Ptr × Task) (cs : Cells) → Chain h (c ∷ cs) → last (c ∷ cs) ≢ null
last-ne-null h c [] w = w.0
last-ne-null h c (d ∷ cs) w = last-ne-null h d cs w.3

-- The last node, and the chain after a new node is linked behind it.
pub Chain-link :
    (h : Heap) (c : Ptr × Task) (cs : Cells) (p : Ptr) (t : Task)
    → Chain h (c ∷ cs)
    → p ≢ null
    → has p (c ∷ cs) ≡ false
    → h p ≡ some (record { task = t; next = null })
    → (u : Task) × (h (last (c ∷ cs)) ≡ some (record { task = u; next = null }))
      × Chain
          (write h (last (c ∷ cs)) (some (record { task = u; next = p })))
          (c ∷ cs ++ (p, t) ∷ [])
Chain-link h c [] p t w ne out e = (c.1, w.1, ground arith)
Chain-link h c (d ∷ cs) p t w ne out e =
    let (u, at, rest) = Chain-link h d cs p t w.3 ne (ground arith) e in
    (
      u,
      at,
      (
        w.0,
        write_other h c.0 _ _ (ne-last d cs c.0 w.2) ∙ w.1,
        ground (arith, has-append c.0 cs ((p, t) ∷ [])),
        rest,
      ),
    )

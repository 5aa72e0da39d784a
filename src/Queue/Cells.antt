-- ===== src/Queue/Cells.antt =====
-- What the linked list stands for: the addresses of its nodes with their clients, in order.
use cmy_message.Prelude.{
  List, [], ◌∷◌, ◌++◌, Bool, true, false, ◌||◌, Option, none, some, ◌≡◌, ◌≢◌, refl, arith, ◌==◌,
  length,
}
use cmy_message.Queue.{Ptr, null, Node, Heap, write, Globals}

abbrev pub Cells : Type 0
Cells = List (Ptr × Ptr)

abbrev pub has : Ptr → Cells → Bool
has a [] = false
has a ((p, _) ∷ xs) = (a == p) || has a xs

abbrev pub first : Cells → Ptr
first [] = null
first ((p, _) ∷ xs) = p

unfoldable pub last : Cells → Ptr
last [] = null
last ((p, _) ∷ []) = p
last (x ∷ y ∷ xs) = last (y ∷ xs)

abbrev pub clients : Cells → List Ptr
clients [] = []
clients ((_, c) ∷ xs) = c ∷ clients xs

abbrev pub node : Ptr → Ptr → Node
node q c = record { next = q; p_client_t = c }

-- Each cell is a node that holds its client and points at the next one; no address twice.
abbrev pub IsLinked : Heap → Cells → Type 0
IsLinked h [] = Unit
IsLinked h ((p, c) ∷ xs) =
    (p ≢ null) × (h p ≡ some (node (first xs) c)) × (has p xs ≡ false) × IsLinked h xs

-- The globals describe the cells, and the heap holds their nodes and no other.
pub record IsQueue (g : Globals) (xs : Cells) : Type 0 where
  pub size : g.queue_size ≡ length xs
  pub front : g.head ≡ first xs
  pub back : g.tail ≡ last xs
  pub linked : IsLinked g.heap xs
  pub exact : (a : Ptr) → has a xs ≡ false → g.heap a ≡ none

pub write_self : (h : Heap) (p : Ptr) (c : Option Node) → write h p c p ≡ c
write_self h p c = ground arith

pub write_ne : (h : Heap) (p : Ptr) (c : Option Node) (q : Ptr) → q ≢ p → write h p c q ≡ h q
write_ne h p c q n = ground arith

-- A list survives a change that spares its own addresses.
pub frame :
    (h h' : Heap) (xs : Cells)
    → ((a : Ptr) → has a xs ≡ true → h' a ≡ h a)
    → IsLinked h xs
    → IsLinked h' xs
frame h h' [] same l = tt
frame h h' ((p, c) ∷ xs) same l =
    (l.0, ground (arith, same p), l.2, frame h h' xs (λ a i. ground (arith, same a)) l.3)

pub has-append : (a p c : Ptr) (xs : Cells) → has a (xs ++ (p, c) ∷ []) ≡ (has a xs || (a == p))
has-append a p c [] = ground arith
has-append a p c (x ∷ xs) = ground (arith, has-append a p c xs)

pub last-append : (p c : Ptr) (xs : Cells) → last (xs ++ (p, c) ∷ []) ≡ p
unfolding last
last-append p c [] = refl
last-append p c (x ∷ []) = refl
last-append p c (x ∷ y ∷ xs) = last-append p c (y ∷ xs)

pub clients-append : (p c : Ptr) (xs : Cells) → clients (xs ++ (p, c) ∷ []) ≡ clients xs ++ c ∷ []
clients-append p c [] = refl
clients-append p c (x ∷ xs) = rw (clients-append p c xs)

pub has-last : (x : Ptr × Ptr) (xs : Cells) → has (last (x ∷ xs)) (x ∷ xs) ≡ true
unfolding last
has-last x [] = ground arith
has-last x (y ∷ xs) = ground (arith, has-last y xs)

-- The last cell points at NULL.
pub heap-last :
    (h : Heap) (x : Ptr × Ptr) (xs : Cells)
    → IsLinked h (x ∷ xs)
    → (d : Ptr) × (h (last (x ∷ xs)) ≡ some (node null d)) × (last (x ∷ xs) ≢ null)
unfolding last
heap-last h (p, c) [] l = (c, l.1, l.0)
heap-last h (p, c) (y ∷ xs) l = heap-last h y xs l.3

-- A new node linked behind the last cell extends the list.
pub IsLinked-append :
    (h h' : Heap) (x : Ptr × Ptr) (xs : Cells) (p c d : Ptr)
    → IsLinked h (x ∷ xs)
    → p ≢ null
    → has p (x ∷ xs) ≡ false
    → h (last (x ∷ xs)) ≡ some (node null d)
    → h' p ≡ some (node null c)
    → h' (last (x ∷ xs)) ≡ some (node p d)
    → ((a : Ptr) → a ≢ p → a ≢ last (x ∷ xs) → h' a ≡ h a)
    → IsLinked h' (x ∷ xs ++ (p, c) ∷ [])
unfolding last
IsLinked-append h h' (q, e) [] p c d l nz new old hp hl same =
    (l.0, ground arith, ground arith, (nz, hp, refl, tt))
IsLinked-append h h' (q, e) (y ∷ xs) p c d l nz new old hp hl same = (
  l.0,
  ground (arith, same q, has-last y xs),
  ground (arith, has-append q p c (y ∷ xs)),
  IsLinked-append h h' y xs p c d l.3 nz (ground arith) old hp hl same,
)

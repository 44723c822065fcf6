-- ===== src/Store/Hub/Subscribers.antt =====
-- Subscribing and unsubscribing keep a hub valid, and undo each other.
use pglockr.Prelude.{
  ℕ, ◌+◌, ◌<◌, ◌≡◌, refl, ◌∙◌, ap, true, false, List, [], ◌∷◌, ◌++◌, Option, none, some, nat_beq,
  lookup, insert, delete, lookup-insert, nat_eq, arith, inl, inr, Bool-cases, Option-cases, All,
  All-append, elem, Distinct, Distinct-concat,
}
use pglockr.Store.Hub.{Hub, Channel, update, subscribe, close_found, unsubscribe, addresses}
use pglockr.Store.Hub.Publish.{IsValid, ids}

addresses-insert :
    (i a : ℕ) (ss : List (ℕ × ℕ))
    → All (λ j. j < i) (ids ss)
    → addresses (insert i a ss) ≡ addresses ss ++ a ∷ []
unfolding insert
addresses-insert i a [] o = refl
addresses-insert i a ((j, b) ∷ ss) (l, o) = ground (arith, addresses-insert i a ss o)

ids-insert :
    (i a : ℕ) (ss : List (ℕ × ℕ))
    → All (λ j. j < i) (ids ss)
    → ids (insert i a ss) ≡ ids ss ++ i ∷ []
unfolding insert
ids-insert i a [] o = refl
ids-insert i a ((j, b) ∷ ss) (l, o) = ground (arith, ids-insert i a ss o)

All-below : (n : ℕ) (xs : List ℕ) → All (λ x. x < n) xs → All (λ x. x < n + 1) xs
All-below n [] o = tt
All-below n (x ∷ xs) (l, o) = (omega arith, All-below n xs o)

not-elem-below : (n : ℕ) (xs : List ℕ) → All (λ x. x < n) xs → elem n xs ≡ false
not-elem-below n [] o = refl
not-elem-below n (x ∷ xs) (l, o) = ground (arith, not-elem-below n xs o)

abbrev fresh : Channel
fresh = record { frame = none; closed = false }

All-update :
    (f : ℕ → Channel) (n : ℕ) (c : Channel) (xs : List ℕ)
    → All (λ a. (f a).closed ≡ false) xs
    → All (λ a. a < n) xs
    → All (λ a. (update f n c a).closed ≡ false) xs
All-update f n c [] o l = tt
All-update f n c (x ∷ xs) (p, o) (l, ls) = (ground arith, All-update f n c xs o ls)

-- Subscribing to a valid hub leaves it valid: the new subscriber gets an open channel of its
-- own, and the others keep theirs.
pub subscribe-IsValid : {h : Hub} → IsValid h → IsValid (subscribe h).2
unfolding subscribe
subscribe-IsValid {h} v =
    let grown : addresses (insert h.next_id h.next_addr h.subs)
        ≡ addresses h.subs ++ h.next_addr ∷ [] =
      addresses-insert h.next_id h.next_addr h.subs v.old_ids in
    record {
      subs_open = rw grown (
          All-append (λ a. (update h.channels h.next_addr fresh a).closed ≡ false)
            (addresses h.subs) (h.next_addr ∷ [])
            (All-update h.channels h.next_addr fresh (addresses h.subs) v.subs_open v.old_addrs)
            (ground arith, tt));
      apart = rw grown (
          Distinct-concat (addresses h.subs) h.next_addr v.apart
            (not-elem-below h.next_addr (addresses h.subs) v.old_addrs));
      old_addrs = rw grown (
          All-append (λ a. a < h.next_addr + 1) (addresses h.subs) (h.next_addr ∷ [])
            (All-below h.next_addr (addresses h.subs) v.old_addrs) (omega arith, tt));
      old_ids = rw (ids-insert h.next_id h.next_addr h.subs v.old_ids) (
          All-append (λ a. a < h.next_id + 1) (ids h.subs) (h.next_id ∷ [])
            (All-below h.next_id (ids h.subs) v.old_ids) (omega arith, tt));
    }

All-delete {ℓ} :
    (P : ℕ → Type ℓ) (i : ℕ) (ss : List (ℕ × ℕ))
    → All P (addresses ss)
    → All P (addresses (delete i ss))
unfolding delete
All-delete P i [] o = tt
All-delete P i ((j, a) ∷ ss) (p, o) = elim (Bool-cases (nat_beq j i)) [
  | inl e ↦ rw e (All-delete P i ss o)
  | inr e ↦ rw e (p, All-delete P i ss o)
]

All-ids-delete :
    (n i : ℕ) (ss : List (ℕ × ℕ)) → All (λ j. j < n) (ids ss) → All (λ j. j < n) (ids (delete i ss))
unfolding delete
All-ids-delete n i [] o = tt
All-ids-delete n i ((j, a) ∷ ss) (p, o) = ground (arith, All-ids-delete n i ss o)

elem-delete :
    (a i : ℕ) (ss : List (ℕ × ℕ))
    → elem a (addresses ss) ≡ false
    → elem a (addresses (delete i ss)) ≡ false
unfolding delete
elem-delete a i [] e = refl
elem-delete a i ((j, b) ∷ ss) e = ground (arith, elem-delete a i ss)

delete-Distinct :
    (i : ℕ) (ss : List (ℕ × ℕ)) → Distinct (addresses ss) → Distinct (addresses (delete i ss))
unfolding delete
delete-Distinct i [] d = tt
delete-Distinct i ((j, b) ∷ ss) (n, d) = elim (Bool-cases (nat_beq j i)) [
  | inl e ↦ rw e (delete-Distinct i ss d)
  | inr e ↦ rw e (elem-delete b i ss n, delete-Distinct i ss d)
]

pub elem-lookup :
    (i a : ℕ) (ss : List (ℕ × ℕ)) → lookup i ss ≡ some a → elem a (addresses ss) ≡ true
unfolding lookup
elem-lookup i a [] e = cc
elem-lookup i a ((j, b) ∷ ss) e = ground (arith, elem-lookup i a ss)

-- The address that goes is in no other entry.
deleted_address :
    (i a : ℕ) (ss : List (ℕ × ℕ))
    → lookup i ss ≡ some a
    → Distinct (addresses ss)
    → elem a (addresses (delete i ss)) ≡ false
unfolding lookup delete
deleted_address i a [] e d = cc
deleted_address i a ((j, b) ∷ ss) e (n, d) =
    ground (arith, deleted_address i a ss, elem-delete b i ss n, elem-lookup i a ss)

pub All-closed :
    (f : ℕ → Channel) (a : ℕ) (c : Channel) (xs : List ℕ)
    → All (λ b. (f b).closed ≡ false) xs
    → elem a xs ≡ false
    → All (λ b. (update f a c b).closed ≡ false) xs
All-closed f a c [] o n = tt
All-closed f a c (x ∷ xs) (p, o) n = (ground arith, All-closed f a c xs o (ground arith))

close_found-IsValid :
    (i : ℕ) (o : Option ℕ) (h : Hub) → lookup i h.subs ≡ o → IsValid h → IsValid (close_found i o h)
unfolding close_found
close_found-IsValid i none h e v = v
close_found-IsValid i (some a) h e v = record {
  subs_open =
      All-closed h.channels a (record { frame = (h.channels a).frame; closed = true })
        (addresses (delete i h.subs)) (All-delete _ i h.subs v.subs_open)
        (deleted_address i a h.subs e v.apart);
  apart = delete-Distinct i h.subs v.apart;
  old_addrs = All-delete (λ b. b < h.next_addr) i h.subs v.old_addrs;
  old_ids = All-ids-delete h.next_id i h.subs v.old_ids;
}

delete-absent : (i : ℕ) (ss : List (ℕ × ℕ)) → All (λ j. j < i) (ids ss) → delete i ss ≡ ss
unfolding delete
delete-absent i [] o = refl
delete-absent i ((j, b) ∷ ss) (l, o) = ground (arith, delete-absent i ss o)

delete-insert :
    (i a : ℕ) (ss : List (ℕ × ℕ)) → All (λ j. j < i) (ids ss) → delete i (insert i a ss) ≡ ss
unfolding delete insert
delete-insert i a [] o = ground arith
delete-insert i a ((j, b) ∷ ss) (l, o) = ground (arith, delete-insert i a ss o)

pub unsubscribe-crashed : (id : ℕ) (h : Hub) → (unsubscribe id h).crashed ≡ h.crashed
unfolding unsubscribe close_found
unsubscribe-crashed id h = elim (Option-cases (lookup id h.subs)) [
  | inl e ↦ rw e refl
  | inr (a, e) ↦ rw e refl
]

-- The subscription that `Subscribe` gave is undone by its function, whatever came between.
pub unsubscribe-subscribe :
    {h : Hub} (g : Hub)
    → IsValid h
    → g.subs ≡ (subscribe h).2.subs
    → (unsubscribe h.next_id g).subs ≡ h.subs
unfolding unsubscribe close_found subscribe
unsubscribe-subscribe {h} g v e =
    let found : lookup h.next_id g.subs ≡ some h.next_addr =
      ap (lookup h.next_id) e
      ∙ ground (arith, lookup-insert h.next_id h.next_id h.next_addr h.subs) in
    rw found (ap (delete h.next_id) e ∙ delete-insert h.next_id h.next_addr h.subs v.old_ids)

-- Unsubscribing from a valid hub leaves it valid: no channel that a subscriber still has is
-- closed.
pub unsubscribe-IsValid : (i : ℕ) {h : Hub} → IsValid h → IsValid (unsubscribe i h)
unfolding unsubscribe
unsubscribe-IsValid i {h} v = close_found-IsValid i (lookup i h.subs) h refl v

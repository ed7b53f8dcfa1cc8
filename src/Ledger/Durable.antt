-- ===== src/Ledger/Durable.antt =====
-- What the ledger file holds after any writes, whatever their system calls do.
use agent_remote_node.Prelude.{
  ℕ, String, ◌≡◌, ◌⊎◌, true, false, Option, none, some, List, [], ◌∷◌, ok, err, arith, string_Eq,
  if_both,
}
use agent_remote_node.Prelude.Map.{Map}
use agent_remote_node.Ledger.Value.{Entry}
use agent_remote_node.Ledger.{
  Ledger, Written, File, LedgerError, uncertain, Calls, Write, saves, swaps, open_file, save_next,
  save_locked, save, compare_and_swap, swapped, get_entry, list_entries, write, write_all,
}

-- A ledger that has not failed is the one that a restart would open.
abbrev pub IsSynced : Ledger → Type 0
IsSynced l = l.failed ≡ false → open_file l.disk ≡ ok l

save_next-IsSynced :
    (c : Calls) (o : Option (Map String Entry)) (l : Ledger)
    → IsSynced l
    → IsSynced (save_next c o l).0
unfolding save_next open_file
save_next-IsSynced c none l h = h
save_next-IsSynced c (some m) l h = ground (arith, h)

save_locked-IsSynced :
    (now : ℕ) (c : Calls) (e : Entry) (l : Ledger) → IsSynced l → IsSynced (save_locked now c e l).0
unfolding save_locked
save_locked-IsSynced now c e l h =
    if_both (λ (r : Written). IsSynced r.0) l.failed (λ _. h) (λ _. save_next-IsSynced c _ l h)

swapped-IsSynced :
    (now : ℕ) (c : Calls) (e : Entry) (l : Ledger) (o : Option LedgerError)
    → IsSynced l
    → IsSynced (swapped now c e l o).0
unfolding swapped
swapped-IsSynced now c e l none h = save_locked-IsSynced now c e l h
swapped-IsSynced now c e l (some x) h = h

write-IsSynced : (w : Write) (l : Ledger) → IsSynced l → IsSynced (write w l).0
unfolding write save compare_and_swap
write-IsSynced (saves now c e) l h = save_locked-IsSynced now c e l h
write-IsSynced (swaps now c x e) l h =
    if_both (λ (r : Written). IsSynced r.0) l.failed (λ _. h) (λ _. swapped-IsSynced now c e l _ h)

pub swap-IsSynced :
    (now : ℕ) (c : Calls) (x : Option Entry) (e : Entry) (l : Ledger)
    → IsSynced l
    → IsSynced (compare_and_swap now c x e l).0
unfolding write
swap-IsSynced now c x e l h = write-IsSynced (swaps now c x e) l h

write_all-IsSynced : (ws : List Write) (l : Ledger) → IsSynced l → IsSynced (write_all ws l)
unfolding write_all
write_all-IsSynced [] l h = h
write_all-IsSynced (w ∷ ws) l h = write_all-IsSynced ws (write w l).0 (write-IsSynced w l h)

pub open_file-IsSynced : (f : File) (l : Ledger) → open_file f ≡ ok l → IsSynced l
unfolding open_file
open_file-IsSynced f l h = ground arith

-- From any ledger file that opens, after any sequence of saves and swaps and whatever each system
-- call of them returned, a ledger that has not failed is exactly the one that opening the file on
-- disk again gives.
pub reopen-write_all :
    (f : File) (l : Ledger) (ws : List Write)
    → open_file f ≡ ok l
    → (write_all ws l).failed ≡ false
    → open_file (write_all ws l).disk ≡ ok (write_all ws l)
reopen-write_all f l ws opened = write_all-IsSynced ws l (open_file-IsSynced f l opened)

save_next_atomic :
    (c : Calls) (o : Option (Map String Entry)) (l : Ledger) (x : LedgerError)
    → (save_next c o l).1 ≡ err x
    → ((save_next c o l).0 ≡ l) ⊎ ((save_next c o l).0.failed ≡ true)
unfolding save_next
save_next_atomic c o l x h = ground arith

save_atomic :
    (now : ℕ) (c : Calls) (e : Entry) (l : Ledger) (x : LedgerError)
    → (save_locked now c e l).1 ≡ err x
    → ((save_locked now c e l).0 ≡ l) ⊎ ((save_locked now c e l).0.failed ≡ true)
unfolding save_locked
save_atomic now c e l x h = ground (arith, save_next_atomic c _ l x)

-- A save or swap that returns an error has changed nothing, neither in memory nor on disk, or has
-- marked the ledger as failed.
pub write_error :
    (w : Write) (l : Ledger) (x : LedgerError)
    → (write w l).1 ≡ err x
    → ((write w l).0 ≡ l) ⊎ ((write w l).0.failed ≡ true)
unfolding write save compare_and_swap swapped
write_error (saves now c e) l x h = save_atomic now c e l x h
write_error (swaps now c o e) l x h = ground (arith, save_atomic now c e l x)

-- Once a publication is uncertain, every operation returns that error and changes nothing.
pub failed_refuses :
    (l : Ledger) (w : Write) (id status : String)
    → l.failed ≡ true
    → (write w l ≡ (l, err uncertain))
      × (get_entry id l ≡ err uncertain)
      × (list_entries status l ≡ err uncertain)
unfolding write save save_locked compare_and_swap get_entry list_entries
failed_refuses l (saves now c e) id status h = (ground arith, ground arith, ground arith)
failed_refuses l (swaps now c o e) id status h = (ground arith, ground arith, ground arith)

-- ===== src/Fs/Create/Fails.antt =====
-- `create` makes no new file.
use zrhos.Base.{ℕ, ◌+◌, ◌/◌, ◌^◌, ◌<◌, ◌≡◌, ◌≢◌, refl, ◌⊎◌, inl, inr, true, none, some}
use zrhos.Fs.Bitmap.{Superblock, Blocks}
use zrhos.Fs.Itable.{holds}
use zrhos.Fs.Inode.{Outcome, returns, panics, waits, ◌>>=◌, Node, ilock, ialloc}
use zrhos.Fs.Inode.RoundTrip.{disk_inode}
use zrhos.Fs.Inode.Locks.{ialloc-IsFreeEntry, ilock_free}
use zrhos.Fs.Directory.{Local, dirlookup, iunlockput, set_node}
use zrhos.Fs.Create.{Created, enter_inode, make_new, create_in}

-- The call gives no inode: it returns the null pointer, panics, or waits for ever.
pub data IsNothing : Outcome Created → Type 0 where
  null : (d : Blocks) → (t : ℕ → Node) → IsNothing (returns (none, d, t))
  panic : IsNothing panics
  wait : IsNothing waits

Outcome-cases {ℓ} :
    {A : Type ℓ} (o : Outcome A) → ((a : A) × (o ≡ returns a)) ⊎ ((o ≡ panics) ⊎ (o ≡ waits))
Outcome-cases (returns a) = inl (a, refl)
Outcome-cases panics = inr (inl refl)
Outcome-cases waits = inr (inr refl)

no_panic : {ip : Node} → ◌≡◌ {A = Outcome Node} (returns ip) panics → ⊥
no_panic h = cc

no_wait : {ip : Node} → ◌≡◌ {A = Outcome Node} (returns ip) waits → ⊥
no_wait h = cc

close-IsNothing :
    (o : Outcome (Blocks × (ℕ → Node))) → IsNothing (o >>= λ put. returns (none, put.0, put.1))
close-IsNothing (returns (d, t)) = null d t
close-IsNothing panics = panic
close-IsNothing waits = wait

module _ (sb : Superblock) (datastart : ℕ) (m : Local) (name : Local)
    (type major minor dp : ℕ) where
  enter-IsNothing :
      (d : Blocks) (k : ℕ) (t : ℕ → Node) (o : Outcome Node)
      → (o ≡ panics) ⊎ (o ≡ waits)
      → IsNothing (
          o >>= λ node. enter_inode sb datastart m name type major minor dp k d (set_node t k node))
  enter-IsNothing d k t panics h = panic
  enter-IsNothing d k t waits h = wait
  enter-IsNothing d k t (returns ip) (inl e) = absurd (no_panic e)
  enter-IsNothing d k t (returns ip) (inr e) = absurd (no_wait e)

  -- Where every inode in the table is in use on the disk and the directory does not have the name, `create`
  -- behind the lookup of its parent gives no inode, whatever it is asked to make: the inode that `ialloc`
  -- finds cannot be locked.
  pub create_in-IsNothing :
      (d : Blocks) (t : ℕ → Node)
      → sb.ninodes / 16 + sb.inodestart < 2 ^ 32
      → ((j inum : ℕ)
          → holds (t dp).slot.dev inum (t j).slot ≡ true
          → (disk_inode sb d inum).type ≢ 0)
      → dirlookup sb datastart name m dp d t ≡ returns (none, d, t)
      → IsNothing (create_in sb datastart m name type major minor dp d t)
  unfolding create_in make_new
  create_in-IsNothing d t fits in_use missing =
      rw (missing, ◌>>=◌)
        (elim (Outcome-cases (ialloc sb (t dp).slot.dev type d t)) [
          | inr (inl e) ↦ rw (e, ◌>>=◌) panic
          | inr (inr e) ↦ rw (e, ◌>>=◌) wait
          | inl ((none, u), e) ↦ rw (e, ◌>>=◌) (close-IsNothing (iunlockput sb dp d u))
          | inl ((some k, u), e) ↦
              let (free, lock, kind) = ialloc-IsFreeEntry sb (t dp).slot.dev type k d t u fits e in
              rw (e, ◌>>=◌)
                (enter-IsNothing d k u (ilock sb d (u k)) (elim kind [
                  | inl held ↦ absurd (in_use k (u k).slot.inum held free)
                  | inr new ↦ ilock_free sb d (u k) free new
                ]))
        ])

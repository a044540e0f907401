-- ===== src/Fs/Create.antt =====
-- `create` of kernel/sysfile.c: a new inode with its entry in the directory.
pub mod Fails
mod Tests
use zrhos.Base.{
  ℕ, ◌+◌, ◌%◌, ◌^◌, ◌<◌, ◌≤◌, ◌≡◌, ◌≢◌, ◌∙◌, refl, sym, ap, inl, inr, Bool, true, false, not, ◌&&◌,
  ◌||◌, Option, none, some, List, [], ◌∷◌, ◌==◌, if◌then◌else◌, get_or, ltb,
}
use zrhos.Fs.Bitmap.{Superblock, Blocks}
use zrhos.Fs.Inode.{Outcome, returns, panics, ◌>>=◌, Node, iupdate, ilock, ialloc}
use zrhos.Fs.Directory.{
  Local, t_dir, name_memory, set_node, dirlookup, iunlockput, nameiparent, dirlink,
}

-- `T_FILE` and `T_DEVICE`
abbrev pub t_file : ℕ
t_file = 2

abbrev pub t_device : ℕ
t_device = 3

-- What `create` returns: the entry of the table, locked, or the null pointer.
abbrev pub Created : Type 0
Created = Option ℕ × Blocks × (ℕ → Node)

-- "." and ".."
abbrev pub dot : Local
dot a = if a == 0 then 46 else 0

abbrev pub dot_dot : Local
dot_dot a = if ltb a 2 then 46 else 0

abbrev pub set_nlink : Node → ℕ → Node
set_nlink ip n = record ip { copy = record (ip.copy) { nlink = n % 2 ^ 16 } }

module _ (sb : Superblock) (datastart : ℕ) (m : Local) where
  -- Behind `fail`.
  unfoldable pub give_up : ℕ → ℕ → Blocks → (ℕ → Node) → Outcome Created
  give_up dp ip d t =
      let node = set_nlink (t ip) 0 in
      iunlockput sb ip (iupdate sb node d) (set_node t ip node) >>= λ first.
      iunlockput sb dp first.0 first.1 >>= λ last. returns (none, last.0, last.1)

  -- The entries "." and ".." of a new directory; `false` is the jump to `fail`.
  unfoldable pub link_dots : ℕ → ℕ → ℕ → Blocks → (ℕ → Node) → Outcome (Bool × Blocks × (ℕ → Node))
  link_dots type dp ip d t = elim (type == t_dir) [
    | false ↦ returns (true, d, t)
    | true ↦ dirlink sb datastart dot (t ip).slot.inum m ip d t >>= λ own. elim own.0 [
      | false ↦ returns own
      | true ↦ dirlink sb datastart dot_dot (own.2 dp).slot.inum m ip own.1 own.2
    ]
  ]

  -- The link of a new directory to its parent, and the end of `create`.
  unfoldable pub finish_create : ℕ → ℕ → ℕ → Blocks → (ℕ → Node) → Outcome Created
  finish_create type dp ip d t =
      let parent = set_nlink (t dp) ((t dp).copy.nlink + 1) in
      let (e, u) = if type == t_dir then (iupdate sb parent d, set_node t dp parent) else (d, t) in
      iunlockput sb dp e u >>= λ put. returns (some ip, put.0, put.1)

  -- Behind `ilock` of the new inode `ip`.
  unfoldable pub enter_inode : Local → ℕ → ℕ → ℕ → ℕ → ℕ → Blocks → (ℕ → Node) → Outcome Created
  enter_inode name type major minor dp ip d t =
      let c = record ((t ip).copy) { major = major; minor = minor; nlink = 1 } in
      let node = record (t ip) { copy = c } in
      link_dots type dp ip (iupdate sb node d) (set_node t ip node) >>= λ dots. elim dots.0 [
        | false ↦ give_up dp ip dots.1 dots.2
        | true ↦ dirlink sb datastart name (dots.2 ip).slot.inum m dp dots.1 dots.2 >>= λ linked.
            elim linked.0 [
              | false ↦ give_up dp ip linked.1 linked.2
              | true ↦ finish_create type dp ip linked.1 linked.2
            ]
      ]

  -- `create` where the name is in the directory already, for the entry `ip` of the table.
  unfoldable pub open_existing : ℕ → ℕ → ℕ → Blocks → (ℕ → Node) → Outcome Created
  open_existing type dp ip d t = iunlockput sb dp d t >>= λ put.
      ilock sb put.0 (put.1 ip) >>= λ node.
      let u = set_node put.1 ip node in
      elim ((type == t_file) && ((node.copy.type == t_file) || (node.copy.type == t_device))) [
        | true ↦ returns (some ip, put.0, u)
        | false ↦ iunlockput sb ip put.0 u >>= λ closed. returns (none, closed.0, closed.1)
      ]

  -- `create` where it is not.
  unfoldable pub make_new : Local → ℕ → ℕ → ℕ → ℕ → Blocks → (ℕ → Node) → Outcome Created
  make_new name type major minor dp d t = ialloc sb (t dp).slot.dev type d t >>= λ got. elim got.0 [
    | none ↦ iunlockput sb dp d got.1 >>= λ put. returns (none, put.0, put.1)
    | some ip ↦ ilock sb d (got.1 ip) >>= λ node.
        enter_inode name type major minor dp ip d (set_node got.1 ip node)
  ]

  -- `create` in the directory `dp`, behind its `ilock`.
  unfoldable pub create_in : Local → ℕ → ℕ → ℕ → ℕ → Blocks → (ℕ → Node) → Outcome Created
  create_in name type major minor dp d t = dirlookup sb datastart name m dp d t >>= λ found.
      elim found.0 [
        | some entry ↦ open_existing type dp entry.0 found.1 found.2
        | none ↦ make_new name type major minor dp found.1 found.2
      ]

  unfoldable pub create :
      (ℕ → ℕ) → List ℕ → List ℕ → ℕ → ℕ → ℕ → ℕ → Blocks → (ℕ → Node) → Outcome Created
  create behind path name cwd type major minor d t =
      nameiparent sb datastart behind m path name cwd d t >>= λ found.
      let (parent, element, e, u) = found in
      elim parent [
        | none ↦ returns (none, e, u)
        | some dp ↦ ilock sb e (u dp) >>= λ node.
            create_in (name_memory element behind) type major minor dp e (set_node u dp node)
      ]

-- ===== src/Opens.antt =====
-- The open inodes and the files on them: linuxpintos/src/filesys/inode.c and linuxpintos/src/filesys/file.c. Each call is
-- modelled as running alone, but for `inode_open`, which gives up its lock where it finds the inode: `Calls` has its
-- search and `open_found` as two calls, and `inode_open` here is both without a call in between. A `struct inode` or
-- `struct file` is known by its address; a `file` is freed by the call that closes it.
pub mod Nodes
pub mod Counts
pub mod Opening
pub mod Calls
pub mod Sound
mod Tests
use tddb68_collab.Base.{
  ℕ, ◌+◌, ◌-◌, ◌%◌, ◌≡◌, Bool, true, false, not, ◌&&◌, Option, none, some, List, [], ◌∷◌, ◌++◌,
  ◌==◌, ltb, leb, if◌then◌else◌,
}
use tddb68_collab.Inode.{InodeDisk, bytes_to_sectors}

-- A call ends, fails an assertion, or uses memory that was freed.
pub data Access {ℓ} (A : Type ℓ) : Type ℓ where
  done : A → Access A
  fails : Access A
  dangling : Access A

infixl 5 ◌>>=◌
abbrev pub ◌>>=◌ {ℓ κ} : {A : Type ℓ} {B : Type κ} → Access A → (A → Access B) → Access B
done a >>= f = f a
fails >>= f = fails
dangling >>= f = dangling

abbrev pub checked {ℓ} : {A : Type ℓ} → Bool → Access A → Access A
checked b k = if b then k else fails

-- `struct inode`, with its address.
pub record Node : Type 0 where
  pub address : ℕ
  pub sector : ℕ
  pub open_cnt : ℕ
  pub removed : Bool
  pub contents : InodeDisk
  pub deny_write_cnt : ℕ

-- The inode at an address, if it is open.
unfoldable pub node_at : List Node → (a : ℕ) → Option Node
node_at [] a = none
node_at (n ∷ ns) a = if n.address == a then some n else node_at ns a

unfoldable pub put_node : List Node → Node → List Node
put_node [] m = []
put_node (n ∷ ns) m = (if n.address == m.address then m else n) ∷ put_node ns m

-- `list_remove`
unfoldable pub unlist : List Node → (a : ℕ) → List Node
unlist [] a = []
unlist (n ∷ ns) a = let rest = unlist ns a in if n.address == a then rest else n ∷ rest

-- A call on the inode at an address.
abbrev pub with_node {ℓ} : {A : Type ℓ} → List Node → (a : ℕ) → (Node → Access A) → Access A
with_node ns a f = elim (node_at ns a) [ none ↦ dangling | some n ↦ f n ]

-- The search in `inode_open`.
unfoldable pub find_sector : List Node → (sector : ℕ) → Option ℕ
find_sector [] sector = none
find_sector (n ∷ ns) sector = if n.sector == sector then some n.address else find_sector ns sector

unfoldable pub inode_reopen : List Node → (a : ℕ) → Access (List Node)
inode_reopen ns a = with_node ns a (λ n.
    checked (not (n.open_cnt == 0)) (done (put_node ns (record n { open_cnt = n.open_cnt + 1 }))))

-- `inode_open` behind the search. The argument `memory` is what `malloc` returns, `contents` what the sector holds.
unfoldable pub open_found :
    List Node
    → (open_inode : Option ℕ) → (sector : ℕ) → (memory : Option ℕ) → (contents : InodeDisk)
    → Access (List Node × Option ℕ)
unfolding inode_reopen
open_found ns (some a) sector memory contents = inode_reopen ns a >>= λ ns'. done (ns', some a)
open_found ns none sector none contents = done (ns, none)
open_found ns none sector (some a) contents = done (
  record {
    address = a;
    sector = sector;
    open_cnt = 1;
    removed = false;
    contents = contents;
    deny_write_cnt = 0;
  }
      ∷ ns,
  some a,
)

unfoldable pub inode_open :
    List Node
    → (sector : ℕ) → (memory : Option ℕ) → (contents : InodeDisk) → Access (List Node × Option ℕ)
unfolding open_found
inode_open ns sector memory contents = open_found ns (find_sector ns sector) sector memory contents

-- What `free_map_release` is called with when an inode is freed: first sectors and numbers of sectors.
abbrev pub freed_sectors : Node → List (ℕ × ℕ)
freed_sectors n =
    if n.removed
    then (n.sector, 1) ∷ (n.contents.start, bytes_to_sectors n.contents.length) ∷ []
    else []

unfoldable pub inode_close : List Node → (a : ℕ) → Access (List Node × List (ℕ × ℕ))
inode_close ns a = with_node ns a (λ n.
    if n.open_cnt == 1
    then done (unlist ns a, freed_sectors n)
    else done (put_node ns (record n { open_cnt = n.open_cnt - 1 }), []))

unfoldable pub inode_remove : List Node → (a : ℕ) → Access (List Node)
inode_remove ns a = with_node ns a (λ n. done (put_node ns (record n { removed = true })))

unfoldable pub inode_deny_write : List Node → (a : ℕ) → Access (List Node)
inode_deny_write ns a = with_node ns a (λ n.
    checked (leb (n.deny_write_cnt + 1) n.open_cnt)
      (done (put_node ns (record n { deny_write_cnt = n.deny_write_cnt + 1 }))))

unfoldable pub inode_allow_write : List Node → (a : ℕ) → Access (List Node)
inode_allow_write ns a = with_node ns a (λ n.
    checked (ltb 0 n.deny_write_cnt && leb n.deny_write_cnt n.open_cnt)
      (done (put_node ns (record n { deny_write_cnt = n.deny_write_cnt - 1 }))))

-- `struct file`
pub record OpenFile : Type 0 where
  pub inode : ℕ
  pub pos : ℕ
  pub deny_write : Bool

-- `room` says whether `calloc` has room. Without a file the inode is closed again.
unfoldable pub file_open :
    List Node → (inode : Option ℕ) → (room : Bool) → Access (List Node × Option OpenFile)
file_open ns none room = done (ns, none)
file_open ns (some a) true = done (ns, some (record { inode = a; pos = 0; deny_write = false }))
file_open ns (some a) false = inode_close ns a >>= λ (ns', _). done (ns', none)

unfoldable pub file_reopen :
    List Node → OpenFile → (room : Bool) → Access (List Node × Option OpenFile)
file_reopen ns f room = inode_reopen ns f.inode >>= λ ns'. file_open ns' (some f.inode) room

unfoldable pub file_deny_write : List Node → OpenFile → Access (List Node × OpenFile)
file_deny_write ns f =
    if f.deny_write
    then done (ns, f)
    else (inode_deny_write ns f.inode >>= λ ns'. done (ns', record f { deny_write = true }))

unfoldable pub file_allow_write : List Node → OpenFile → Access (List Node × OpenFile)
file_allow_write ns f =
    if f.deny_write
    then (inode_allow_write ns f.inode >>= λ ns'. done (ns', record f { deny_write = false }))
    else done (ns, f)

-- With what `free_map_release` is called with.
unfoldable pub file_close : List Node → OpenFile → Access (List Node × List (ℕ × ℕ))
file_close ns f = file_allow_write ns f >>= λ (ns', _). inode_close ns' f.inode

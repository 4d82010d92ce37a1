-- ===== src/Apfs/Tests.antt =====
-- Tests of lib/jevmachopp/UBootAPFS.cpp: a container with one volume `v`, on it a directory `a` with
-- a file `b`.
use jevmachopp.Base.{
  ℕ, List, [], ◌∷◌, map, Option, none, some, ◌==◌, if◌then◌else◌, ◌≡◌, refl, arith, done, ◌>>=◌,
  Ensures,
}
use jevmachopp.Text.{get, text_eq, find_if_or_nullptr}
use jevmachopp.Text.Splitting.{IsName}
use jevmachopp.Text.SplitAt.{split_at, split_at-Splits}
use jevmachopp.Apfs.{
  DirRec, Volume, Container, Libraries, ApfsNode, path_of, path_from, volume_node, path_node,
  container_node, child_named, length, true, false,
}
use jevmachopp.Apfs.Lookup.{lookup, lookup_volume, list_node}
use jevmachopp.Apfs.Stream.{read_all}
use jevmachopp.Apfs.Ctx.{
  opens_named, natural, Devices, CtxCall, probes, closes, uses_container, start_ctx, ctx_calls,
}
use jevmachopp.Apfs.Paths.{slashed, in_volume, descend, root_of, lookup-path_of, lookup-path_from}
use jevmachopp.Apfs.Listing.{dirent_of, with_name, child_named-list_node, read_all_lem}
use jevmachopp.Apfs.Opened.{Usable, ctx_calls-Usable}

abbrev libraries : Libraries
libraries = record { root_dir_parent = 1; drec_type_mask = 15; split = split_at }

abbrev name_v : List ℕ
name_v = b'v' ∷ []

abbrev name_a : List ℕ
name_a = b'a' ∷ []

abbrev name_b : List ℕ
name_b = b'b' ∷ []

abbrev dir_a : DirRec
dir_a = record { name = name_a; file_id = 7; flags = 4 }

abbrev file_b : DirRec
file_b = record { name = name_b; file_id = 8; flags = 8 }

abbrev find_rec : ℕ → List ℕ → Option DirRec
find_rec ino name =
    if ino == 1
    then (if text_eq name name_a then some dir_a else none)
    else (if text_eq name name_b then some file_b else none)

abbrev volume_v : Volume
volume_v = record {
  name = name_v;
  lookup_name = find_rec;
  list_directory = λ ino. some (if ino == 1 then dir_a ∷ [] else file_b ∷ []);
}

abbrev container_v : Container
container_v = record {
  volume_cnt = 1;
  get_volume = λ i. if i == 0 then some volume_v else none;
  get_volume_info = λ i. if i == 0 then some name_v else none;
}

IsName-v : IsName b'/' name_v
IsName-v = (λ h. cc, ((λ h. absurd (omega arith)), tt))

IsName-a : IsName b'/' name_a
IsName-a = (λ h. cc, ((λ h. absurd (omega arith)), tt))

IsName-b : IsName b'/' name_b
IsName-b = (λ h. cc, ((λ h. absurd (omega arith)), tt))

lookup-path_of_example :
    path_of name_v (b'/' ∷ slashed (name_a ∷ name_b ∷ [])) >>= lookup libraries container_v
    ≡ descend libraries container_v
        (done (root_of libraries container_v name_v ((name_v, volume_v) ∷ [])))
        (name_a ∷ name_b ∷ [])
lookup-path_of_example =
    lookup-path_of libraries container_v split_at-Splits ((name_v, volume_v) ∷ []) name_v name_a
      (name_b ∷ []) refl (refl, refl, tt) (λ h. cc) (IsName-a, (IsName-b, tt))

lookup-path_from_example :
    path_from libraries (b'/' ∷ slashed (name_v ∷ name_a ∷ [])) >>= lookup libraries container_v
    ≡ lookup_volume libraries container_v name_v >>= in_volume libraries container_v []
lookup-path_from_example =
    lookup-path_from libraries container_v split_at-Splits name_v (name_a ∷ [])
      (IsName-v, (IsName-a, tt)) (omega arith)

child_named-list_node_example :
    Ensures
      (λ nodes.
        child_named libraries container_v container_node name_v
        ≡ done (find_if_or_nullptr (with_name libraries container_v name_v) nodes))
      (list_node libraries container_v container_node)
child_named-list_node_example = child_named-list_node libraries container_v name_v

abbrev two_nodes : List ApfsNode
two_nodes = path_node volume_v dir_a ∷ path_node volume_v file_b ∷ []

read_all_lem_example :
    read_all libraries 3 (record { nodes = two_nodes; idx = 0 })
    ≡ done (map (dirent_of libraries) two_nodes, record { nodes = two_nodes; idx = 2 })
read_all_lem_example = read_all_lem libraries two_nodes

-- Devices whose container is found at a start other than 0.
abbrev devices : Devices
devices = record {
  Desc = ℕ;
  opens = λ n. n == 1;
  named = λ name. if length name == 3 then some 1 else none;
  verifies = λ n. true;
  partition_at = λ n part. if part == 1 then some (1024, 4608) else none;
  stoi = λ s. natural 2;
  split = split_at;
  container_on = λ n start size. if start == 0 then none else some container_v;
}

abbrev session : List (CtxCall devices)
session =
    opens_named (b'v' ∷ b':' ∷ b'1' ∷ b':' ∷ b'2' ∷ [])
    ∷ closes
    ∷ probes 1 (record { start = 2; size = 9; blksz = 512 })
    ∷ uses_container
    ∷ closes
    ∷ probes 1 (record { start = 0; size = 9; blksz = 512 })
    ∷ []

ctx_calls-Usable_example : Ensures (Usable devices) (ctx_calls devices (start_ctx devices) session)
ctx_calls-Usable_example = ctx_calls-Usable devices session

-- The file is found; a path as one string loses the name after the volume's.
finds_file :
    path_of name_v (b'/' ∷ slashed (name_a ∷ name_b ∷ [])) >>= lookup libraries container_v
    ≡ done (some (path_node volume_v file_b))
unfolding path_of lookup split_at text_eq
finds_file = refl

loses_name :
    path_from libraries (b'/' ∷ slashed (name_v ∷ name_a ∷ [])) >>= lookup libraries container_v
    ≡ done (some (volume_node volume_v))
unfolding path_from lookup split_at text_eq
loses_name = refl

-- The context is closed by name, and then open on the other partition.
ends_shut :
    ctx_calls devices (start_ctx devices) session >>= (λ ctx. done ctx.m_opened) ≡ done false
unfolding ctx_calls split_at text_eq get
ends_shut = refl

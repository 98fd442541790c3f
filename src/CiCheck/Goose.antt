-- ===== src/CiCheck/Goose.antt =====
-- etc/ci-goose-check.py: its projects and the script.
use perennial.Prelude.{none, List, String, [], ◌∷◌}
use perennial.CiCheck.{Proj, path, Shell, Block, ◌>>=◌, sp_run, checkout_all}

abbrev goose_proj : Proj
goose_proj = record {
  name = "goose";
  repo = "https://github.com/goose-lang/goose/";
  commit = "master";
}

abbrev new_goose_proj : Proj
new_goose_proj = record {
  name = "new_goose";
  repo = "https://github.com/goose-lang/goose/";
  commit = "new";
}

abbrev std_proj : Proj
std_proj = record { name = "std"; repo = "https://github.com/goose-lang/std"; commit = "master" }

abbrev primitive_proj : Proj
primitive_proj = record {
  name = "primitive";
  repo = "https://github.com/goose-lang/primitive";
  commit = "main";
}

abbrev marshal_proj : Proj
marshal_proj = record {
  name = "marshal";
  repo = "https://github.com/tchajed/marshal";
  commit = "master";
}

abbrev examples_proj : Proj
examples_proj = record {
  name = "examples";
  repo = "https://github.com/mit-pdos/perennial-examples";
  commit = "master";
}

abbrev journal_proj : Proj
journal_proj = record {
  name = "journal";
  repo = "https://github.com/mit-pdos/go-journal";
  commit = "master";
}

abbrev nfsd_proj : Proj
nfsd_proj = record {
  name = "nfsd";
  repo = "https://github.com/mit-pdos/go-nfsd";
  commit = "master";
}

abbrev gokv_proj : Proj
gokv_proj = record { name = "gokv"; repo = "https://github.com/mit-pdos/gokv"; commit = "main" }

abbrev new_gokv_proj : Proj
new_gokv_proj = record {
  name = "new_gokv";
  repo = "https://github.com/mit-pdos/gokv";
  commit = "new";
}

abbrev mvcc_proj : Proj
mvcc_proj = record { name = "mvcc"; repo = "https://github.com/mit-pdos/vmvcc"; commit = "main" }

abbrev pav_proj : Proj
pav_proj = record { name = "pav"; repo = "https://github.com/mit-pdos/pav"; commit = "main" }

abbrev etcd_raft_proj : Proj
etcd_raft_proj = record {
  name = "etcd-raft";
  repo = "https://github.com/upamanyus/etcd-raft";
  commit = "main";
}

abbrev etcd_proj : Proj
etcd_proj = record { name = "etcd"; repo = "https://github.com/upamanyus/etcd"; commit = "main" }

abbrev pub projs : List Proj
projs =
    goose_proj ∷ new_goose_proj ∷ std_proj ∷ primitive_proj ∷ marshal_proj ∷ examples_proj
    ∷ journal_proj ∷ nfsd_proj ∷ gokv_proj ∷ new_gokv_proj ∷ mvcc_proj ∷ pav_proj ∷ etcd_raft_proj
    ∷ etcd_proj ∷ []

abbrev pub update_goose : List String
update_goose =
    "etc/update-goose.py"
    ∷ "--compile"
    ∷ "--goose"
    ∷ path goose_proj
    ∷ "--goose-examples"
    ∷ "--channel"
    ∷ "--std"
    ∷ path std_proj
    ∷ "--marshal"
    ∷ path marshal_proj
    ∷ "--examples"
    ∷ path examples_proj
    ∷ "--journal"
    ∷ path journal_proj
    ∷ "--nfsd"
    ∷ path nfsd_proj
    ∷ "--gokv"
    ∷ path gokv_proj
    ∷ "--mvcc"
    ∷ path mvcc_proj
    ∷ "--pav"
    ∷ path pav_proj
    ∷ []

abbrev pub update_goose_new : List String
update_goose_new =
    "new/etc/update-goose-new.py"
    ∷ "--compile"
    ∷ "--goose"
    ∷ path new_goose_proj
    ∷ "--std-lib"
    ∷ "--goose-examples"
    ∷ "--channel"
    ∷ "--gokv"
    ∷ path new_gokv_proj
    ∷ "--marshal"
    ∷ path marshal_proj
    ∷ "--std"
    ∷ path std_proj
    ∷ "--primitive"
    ∷ path primitive_proj
    ∷ "--etcd"
    ∷ path etcd_proj
    ∷ "--etcd-raft"
    ∷ path etcd_raft_proj
    ∷ "--go-journal"
    ∷ path journal_proj
    ∷ []

-- The translated files are those that are committed, or the script raises.
unfoldable pub main : (shell : Shell) → shell.Disk → Block shell.Disk
main shell d = checkout_all shell projs d >>= λ o₀ d₀.
    sp_run shell update_goose none d₀ >>= λ o₁ d₁.
    sp_run shell update_goose_new none d₁ >>= λ o₂ d₂.
    sp_run shell ("git" ∷ "diff" ∷ "--exit-code" ∷ []) none d₂

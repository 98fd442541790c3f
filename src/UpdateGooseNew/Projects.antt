-- ===== src/UpdateGooseNew/Projects.antt =====
-- new/etc/update-goose-new.py: the projects, and the packages of each.
use perennial.Prelude.{String, Option, none, some, List, [], ◌∷◌, if◌then◌else◌, ◌==◌}
use Prim.Native.Char.{code}
use Prim.Native.String.{◌++◌ as text_append}

pub record Proj : Type 0 where
  pub name : String
  pub repo : String
  pub pkgs : List String

-- `repo.split("/")[-1]`: what follows the last slash, kept is what follows the last one so far.
unfoldable pub after_slash : String → String → String
after_slash kept String.[] = kept
after_slash kept (String.◌∷◌ c s) = if code c == b'/' then after_slash s s else after_slash kept s

abbrev pub last_part : String → String
last_part s = after_slash s s

abbrev pub create_proj : Option String → String → Option (List String) → Proj
create_proj name repo pkgs = record {
  name = elim name [ none ↦ last_part repo | some n ↦ n ];
  repo = repo;
  pkgs = elim pkgs [ none ↦ "./..." ∷ [] | some ps ↦ ps ];
}

abbrev pub primitive_pkgs : List String
primitive_pkgs = "." ∷ "./disk" ∷ []

abbrev pub gokv_pkgs : List String
gokv_pkgs =
    "./partialapp" ∷ "./asyncfile" ∷ "./urpc" ∷ "./kv" ∷ "./bank" ∷ "./lockservice"
    ∷ "./map_string_marshal" ∷ "./vrsm/replica" ∷ "./vrsm/reconfig" ∷ "./vrsm/configservice"
    ∷ "./vrsm/apps/exactlyonce" ∷ "./vrsm/apps/vkv" ∷ "./vrsm/paxos" ∷ "./aof" ∷ "./reconnectclient"
    ∷ "./vrsm/e" ∷ "./vrsm/clerk" ∷ "./vrsm/storage" ∷ "./vrsm/apps/closed" ∷ "./map_marshal"
    ∷ "./cachekv" ∷ "./trusted_proph" ∷ []

abbrev pub etcd_raft_pkgs : List String
etcd_raft_pkgs =
    "." ∷ "github.com/stretchr/testify/assert" ∷ "go.etcd.io/raft/v3/confchange"
    ∷ "go.etcd.io/raft/v3/quorum" ∷ "go.etcd.io/raft/v3/quorum/slices" ∷ "go.etcd.io/raft/v3/raftpb"
    ∷ "go.etcd.io/raft/v3/tracker" ∷ []

abbrev pub etcd_pkgs : List String
etcd_pkgs =
    "time" ∷ "math" ∷ "google.golang.org/grpc" ∷ "go.etcd.io/etcd/api/v3/etcdserverpb"
    ∷ "go.etcd.io/etcd/api/v3/mvccpb" ∷ "go.etcd.io/etcd/client/v3"
    ∷ "go.etcd.io/etcd/client/v3/concurrency" ∷ "go.etcd.io/etcd/client/v3/leasing"
    ∷ "go.etcd.io/etcd/api/v3/v3rpc/rpctypes" ∷ "google.golang.org/grpc/codes"
    ∷ "google.golang.org/grpc/status" ∷ "go.uber.org/zap" ∷ "go.uber.org/zap/zapcore" ∷ []

abbrev pub testdata_pkgs : List String
testdata_pkgs = "./append_log" ∷ "./semantics" ∷ "./unittest/..." ∷ "./channel" ∷ []

abbrev pub std_lib_pkgs : List String
std_lib_pkgs =
    "testing" ∷ "bytes" ∷ "context" ∷ "crypto/rand" ∷ "errors" ∷ "io" ∷ "math" ∷ "math/big"
    ∷ "math/rand" ∷ "os" ∷ "sort" ∷ "slices" ∷ "strconv" ∷ "strings" ∷ "sync" ∷ "sync/atomic"
    ∷ "internal/race" ∷ "fmt" ∷ "log" ∷ []

abbrev pub projs : List Proj
projs =
    create_proj none "goose-lang/std" none
    ∷ create_proj none "tchajed/marshal" none
    ∷ create_proj none "goose-lang/primitive" (some primitive_pkgs)
    ∷ create_proj none "mit-pdos/gokv" (some gokv_pkgs)
    ∷ create_proj none "upamanyus/etcd-raft" (some etcd_raft_pkgs)
    ∷ create_proj none "upamanyus/etcd" (some etcd_pkgs)
    ∷ create_proj none "mit-pdos/go-journal" none
    ∷ []

-- `name.replace("-", "_")`
unfoldable pub dest : String → String
dest String.[] = String.[]
dest (String.◌∷◌ c s) = if code c == b'-' then text_append "_" (dest s) else String.◌∷◌ c (dest s)

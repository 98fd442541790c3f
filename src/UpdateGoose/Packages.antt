-- ===== src/UpdateGoose/Packages.antt =====
-- etc/update-goose.py: the packages that main names of each repository.
use perennial.Prelude.{String, List, [], ◌∷◌}

abbrev pub example_pkgs : List String
example_pkgs =
    "./append_log" ∷ "./async" ∷ "./comments" ∷ "./logging2" ∷ "./rfc1813" ∷ "./semantics"
    ∷ "./simpledb" ∷ "./trust_import/..." ∷ "./unittest/..." ∷ "./wal" ∷ []

abbrev pub journal_pkgs : List String
journal_pkgs =
    "./addr" ∷ "./alloc" ∷ "./buf" ∷ "./jrnl" ∷ "./common" ∷ "./lockmap" ∷ "./obj" ∷ "./util"
    ∷ "./wal" ∷ "./jrnl_replication" ∷ "./txn" ∷ []

abbrev pub nfsd_pkgs : List String
nfsd_pkgs = "./kvs" ∷ "./super" ∷ "./fh" ∷ "./simple" ∷ "./nfstypes" ∷ []

abbrev pub perennial_example_pkgs : List String
perennial_example_pkgs =
    "./replicated_block" ∷ "./alloc" ∷ "./inode" ∷ "./indirect_inode" ∷ "./async_inode" ∷ "./dir"
    ∷ "./dynamic_dir" ∷ "./single_inode" ∷ "./single_async_inode" ∷ "./toy" ∷ "./async_toy"
    ∷ "./async_durable_alloc_inode" ∷ "./async_mem_alloc_inode" ∷ "./async_mem_alloc_dir"
    ∷ "./async_durable_alloc" ∷ []

abbrev pub distributed_pkgs : List String
distributed_pkgs = "." ∷ "./grove_common" ∷ []

abbrev pub gokv_pkgs : List String
gokv_pkgs =
    "./asyncfile" ∷ "./urpc" ∷ "./memkv" ∷ "./kv" ∷ "./memkv/..." ∷ "./connman" ∷ "./paxi/single"
    ∷ "./bank" ∷ "./lockservice" ∷ "./ctrexample/client" ∷ "./ctrexample/server" ∷ "./fencing/ctr"
    ∷ "./fencing/config" ∷ "./fencing/frontend" ∷ "./fencing/client" ∷ "./fencing/loopclient"
    ∷ "./erpc" ∷ "./paxi/reconf" ∷ "./map_string_marshal" ∷ "./vrsm/replica" ∷ "./vrsm/reconfig"
    ∷ "./vrsm/configservice" ∷ "./vrsm/apps/exactlyonce" ∷ "./vrsm/apps/vkv" ∷ "./vrsm/paxos"
    ∷ "./aof" ∷ "./reconnectclient" ∷ "./vrsm/e" ∷ "./vrsm/clerk" ∷ "./vrsm/storage"
    ∷ "./vrsm/apps/closed" ∷ "./tutorial" ∷ "./tutorial/objectstore/dir"
    ∷ "./tutorial/objectstore/dir/chunkhandle_gk" ∷ "./tutorial/objectstore/dir/finishwrite_gk"
    ∷ "./tutorial/objectstore/dir/recordchunk_gk" ∷ "./tutorial/objectstore/chunk"
    ∷ "./tutorial/objectstore/chunk/writechunk_gk" ∷ "./tutorial/objectstore/client"
    ∷ "./tutorial/lockservice" ∷ "./tutorial/lockservice/lockrequest_gk" ∷ "./tutorial/kvservice"
    ∷ "./tutorial/kvservice/conditionalput_gk" ∷ "./tutorial/kvservice/get_gk"
    ∷ "./tutorial/kvservice/put_gk" ∷ "./tutorial/basics" ∷ "./tutorial/queue" ∷ "./map_marshal"
    ∷ "./minlease" ∷ "./dmvcc/..." ∷ "./cachekv" ∷ []

abbrev pub pav_pkgs : List String
pav_pkgs = "./advrpc" ∷ "./alicebob" ∷ "./cryptoutil" ∷ "./kt" ∷ "./marshalutil" ∷ "./merkle" ∷ []

abbrev pub mvcc_pkgs : List String
mvcc_pkgs =
    "./vmvcc" ∷ "./txnsite" ∷ "./index" ∷ "./tuple" ∷ "./wrbuf" ∷ "./tid" ∷ "./config" ∷ "./common"
    ∷ "./examples" ∷ "./examples/strnum" ∷ []

abbrev pub rsm_pkgs : List String
rsm_pkgs = "./spaxos" ∷ "./mpaxos" ∷ "./distx" ∷ "./tpl" ∷ "./pcr" ∷ []

abbrev pub tulip_pkgs : List String
tulip_pkgs =
    "./backup" ∷ "./gcoord" ∷ "./index" ∷ "./message" ∷ "./params" ∷ "./paxos" ∷ "./quorum"
    ∷ "./replica" ∷ "./tulip" ∷ "./tuple" ∷ "./txn" ∷ "./txnlog" ∷ "./util" ∷ []

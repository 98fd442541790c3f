-- ===== src/Lib.antt =====
-- Models of the Python code of Perennial: the NFS symbolic tester under
-- src/goose_lang/examples/nfs_spec/symtest/, the timing wrapper of coqc,
-- etc/coqc.py, and the scripts etc/update-goose.py,
-- new/etc/update-goose-new.py, etc/ci-goose-check.py and etc/ci-grackle-check.py.
--
-- The tester reads a packet capture, pairs the NFS calls and replies in it (nfs_trace.py), decodes
-- both with two generated XDR codecs (rfc1057/ for the RPC envelope, rfc1813/ for NFSv3), and
-- evaluates the specification, a Coq development extracted to JSON, on them (json_eval.py).
--
-- Which file models which part:
-- - Prelude (with Lists), Decimal (with Value), Outcome: shared names; the decimal text of a number; Python's
--   result of a call, a value or an exception.
-- - Json: the JSON values of json_eval.py, with Python's reads and writes of a dict. A Module object
--   inside a JSON tree is a place of the context's heap (`module_ref`).
-- - JsonEval: json_eval.py. Modules (Module, Context, scope_name), Subst (subst_what, apply), Reduce
--   (Context.reduce; each branch of the `what` test is a function), Rename (rename_binders,
--   anon_binder; the global counter is a state that is passed on), Load (Module.__init__,
--   _annotate_globals, Context.load). Bound has the names that a renamed term binds. ReduceLaws,
--   Beta, RenameLaws, Distinct, NewNames, Size and Fuel hold the proofs.
-- - Xdr: Python's xdrlib, a packer as a function on the bytes so far, an unpacker as a function on
--   the bytes left. It stands for the standard library. Reads says that an unpacker reads back what
--   a packer wrote and leaves what follows; RoundTrip shows it of each primitive.
-- - Rfc1813, Rfc1057: pack.py, types.py and const.py of the codec, one file for a group of types.
--   A class of types.py is a record whose fields are optional, as None is Python's default; the
--   method pack_X is `pack_x` and unpack_X `unpack_x`. RoundTrip below a file reads its types
--   back; the predicate IsX there says that a value is canonical: an arm that the discriminant does
--   not select is None, a bool is 0 or 1, a 64-bit number is below 2^64, a fixed-size field has its
--   size. 32-bit numbers need no condition, as the packer refuses others. Messages has the proofs
--   for whole messages, Guards those for the checks of single fields, Tests the runs.
--   Xdr.Linked has the linked lists of entries, mounts, groups, exports and port mappings, and Decodes
--   says that an unpacker ends and leaves no more bytes than it was given.
-- - Stub, Programs: client.py and server.py of both, one file for a program (Nfs, Mount, Pmap) with
--   its table of procedures; the classes of one file have the same methods over different base classes
--   of the library rpc, which are a parameter (Transport). Remote holds the proofs.
-- - NfsTrace: nfs_trace.py, the whole loop over the packets. dpkt, which decodes the capture, is the
--   parameter Dpkt. Pairs and Wire hold the proofs.
-- - Coqc: etc/coqc.py, which reads the output of coqc and puts the time of each Qed into a database
--   (Classify, CoqcFilter, NullDb, TimingDb), and Script: StdoutDb, the constructors and the script itself.
--   Python's re, UTF-8, the files, sqlite and the process of coqc are the parameters Python, Printer,
--   Connection and Process. What StdoutDb prints stands apart from what the filter passes on, and
--   Ctrl-C comes after a whole line. Attribution, Streams, Exit and Obligations hold the proofs.
-- - UpdateGoose: etc/update-goose.py, with the packages it names (Packages). The file system, the
--   environment and the outcome of a command are the parameter Env; a run answers with the current
--   directory, the commands printed and those run. DryRun and Ends hold the proofs.
-- - UpdateGooseNew: new/etc/update-goose-new.py, with its ProcessManager (Manager) and its projects
--   (Projects). The processes of the manager stand with the last one first, and max_procs, which may end in
--   a half, is counted in halves. The file system, Popen and the exit statuses are parameters. Waiting,
--   Statuses and DryRun hold the proofs.
-- - CiCheck: etc/ci-goose-check.py and etc/ci-grackle-check.py, which have the same Proj and checkout; Goose
--   and Grackle are the two scripts. The commands and the disk are the parameter Shell, what git does to
--   the origin of a directory is the hypothesis Git, and what makes a directory one that checkout can replace is
--   the hypothesis Access. Origin and Recovery hold the proofs.
--
-- Fuel: reduce and rename_binders recurse on fuel and answer with the error out_of_fuel when there
-- is not enough. The number of nodes of the term is enough for rename_binders. The source's reduce need
-- not end, so no amount is enough for every term; its laws hold at each amount. The unpackers of
-- linked lists take the number of bytes left as fuel, which is enough: each round reads four bytes. Python's
-- own limit on the depth of calls, which a list of some hundred entries meets, is not modelled.
--
-- Not modelled: the printing of tables (pprint), __repr__ and the alias `arm` of the generated
-- classes, their __getitem__, the solver-backed json_sym.py and symbolic_json.py, the driver symrun.py, the copied
-- library rpc/, and the report etc/timing-report.py.
pub mod CiCheck
pub mod Coqc
pub mod Decimal
pub mod Json
pub mod JsonEval
pub mod NfsTrace
pub mod Outcome
pub mod Prelude
pub mod Programs
pub mod Rfc1057
pub mod Rfc1813
pub mod Stub
pub mod UpdateGoose
pub mod UpdateGooseNew
pub mod Xdr

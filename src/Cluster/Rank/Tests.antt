-- ===== src/Cluster/Rank/Tests.antt =====
-- A rank service over a machine whose processes succeed, and each is logged.
use metralectl.Prelude.{◌≡◌, refl, List, [], ◌∷◌, none, true, String, success}
use metralectl.Protocol.{pos}
use metralectl.Settings.Samples.{floats}
use metralectl.Prelude.{◌++◌, ◌<>◌, decimal}
use metralectl.Translate.{nccl_env}
use metralectl.Translate.Samples.{recipe, context, host}
use metralectl.Cluster.Plan.{RankAssignment}
use metralectl.Cluster.Host.{Host}
use metralectl.Cluster.Rank.{Rank}
use metralectl.Cluster.Rank.Requests.{Request, prepares, commits, IsLogged, perform}

-- The world is the log.
abbrev machine : Host (List (List String))
machine = record {
  resolve = λ name. success recipe;
  content_hash = λ r. "h";
  snapshot = host "s";
  policy = context;
  translate_text = λ why. "";
  bind_interface = λ iface device. ("NCCL_SOCKET_IFNAME", iface) ∷ [];
  floats = floats;
  run = λ argv w. (success (record { status = pos 0; stdout = "true"; stderr = "" }), argv ∷ w);
  now = λ w. (7, w);
  answers = λ addr port w. (true, w);
  can_launch = none;
  local_addresses = [];
  rdma_devices = [];
  parse_ip = λ addr. none;
  trim = λ s. s;
}

abbrev all_of : List (List String) → List (List String)
all_of w = w

machine-IsLogged : IsLogged machine all_of
machine-IsLogged = record { ran = λ argv w. refl; read = λ w. refl; asked = λ addr port w. refl }

abbrev assigned : RankAssignment
assigned = record {
  node = "n1";
  rank = 1;
  world_size = 2;
  master_addr = "10.10.10.9";
  master_port = 29500;
  recipe = "r";
  recipe_hash = "h";
  settings = [];
}

abbrev fresh : Rank (List (List String))
fresh = record { world = []; reserved = none }

abbrev requests : List Request
requests = commits "ab" ∷ prepares "ab" assigned ∷ []

abbrev variables : List (String × String) → List String
variables [] = []
variables ((k, v) ∷ rest) = "-e" ∷ (k <> "=" <> v) ∷ variables rest

abbrev name : String
name = "metrale-" <> "r" <> "-rank" <> decimal 1

-- The worker's command.
abbrev launch : List String
launch =
    ("docker" ∷ "run" ∷ "-d" ∷ "--entrypoint" ∷ "" ∷ "--gpus" ∷ "all" ∷ "--ipc=host"
      ∷ "--shm-size=32gb" ∷ "--network=host" ∷ "--security-opt" ∷ "no-new-privileges"
      ∷ "--security-opt" ∷ "seccomp=unconfined" ∷ "--cap-add=IPC_LOCK" ∷ "--cap-add=SYS_NICE"
      ∷ "--ulimit" ∷ "memlock=-1:-1" ∷ "--ulimit" ∷ "stack=67108864" ∷ "--device"
      ∷ "/dev/infiniband" ∷ "--label" ∷ "io.metralectl.managed=1" ∷ "--label"
      ∷ "io.metralectl.recipe=r" ∷ "--name" ∷ name ∷ [])
    ++ (variables (("HF_HOME", "/cache/huggingface") ∷ ("HF_HUB_OFFLINE", "1") ∷ nccl_env)
        ++ (variables (("PROXY", "p/$") ∷ ("TOKEN", "t.") ∷ ("TRANSFORMERS_OFFLINE", "1") ∷ [])
            ++ ("-v"
                ∷ "/c:/cache/huggingface"
                ∷ "i"
                ∷ "met"
                ∷ "serve"
                ∷ "m"
                ∷ "--tp-size"
                ∷ decimal 2
                ∷ "--port"
                ∷ "0"
                ∷ "--rank"
                ∷ decimal 1
                ∷ "--world-size"
                ∷ decimal 2
                ∷ "--master-addr"
                ∷ "10.10.10.9"
                ∷ "--master-port"
                ∷ decimal 29500
                ∷ [])))

abbrev once : Rank (List (List String))
once = perform machine all_of machine-IsLogged (prepares "ab" assigned) fresh

abbrev twice : Rank (List (List String))
twice = perform machine all_of machine-IsLogged (commits "ab") once

-- The container is kept when it ends, so there is no `--rm`.
committed_once :
    twice.world
    ≡ launch
      ∷ ("docker" ∷ "rm" ∷ "-f" ∷ name ∷ [])
      ∷ ("docker" ∷ "info" ∷ "--format" ∷ "{{.ServerVersion}}" ∷ [])
      ∷ []
unfolding perform
committed_once = refl

-- A commit that comes twice.
abbrev replayed : List Request
replayed = commits "ab" ∷ requests

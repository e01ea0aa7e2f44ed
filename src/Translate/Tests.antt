-- ===== src/Translate/Tests.antt =====
-- Two hosts that differ in a variable that is not passed through, and what a worker is given.
use metralectl.Prelude.{◌≡◌, refl, true, ◌&&◌, leb, [], ◌∷◌, none, some}
use metralectl.Prelude.{String, ◌<>◌, decimal, Memᴰ, All-mem, false, ◌++◌}
use metralectl.Translate.Maps.{get}
use metralectl.Translate.Environment.{passthrough_env, expand}
use metralectl.Translate.{Placement, LaunchPlan, rootless_v1, nvidia_flags, nccl_env}
use metralectl.Translate.{translate}
use metralectl.Translate.Samples.{recipe, context, host}
use metralectl.Translate.Secrets.{IsAlike, translate-alike}

abbrev worker : Placement
worker = Placement.rank 1 2 "10.0.0.1" 29500

-- A name is a letter or more in this one.
passed_on : expand (λ n. leb b'a' n && leb n b'z') (host "s") "$$a${HTTPS_PROXY}$HF" ≡ "$p$HF"
unfolding expand
passed_on = refl

same_proxies : (k : String) → Memᴰ k passthrough_env → get k (host "s").env ≡ get k (host "t").env
unfolding get
same_proxies k =
    All-mem (λ k. get k (host "s").env ≡ get k (host "t").env) passthrough_env
      (refl, (refl, (refl, (refl, (refl, (refl, tt))))))

hosts-IsAlike : IsAlike (host "s") (host "t")
hosts-IsAlike = record { user = refl; cache = refl; passed = same_proxies }

translate-alike_example :
    translate context recipe [] [] (host "s") worker
    ≡ translate context recipe [] [] (host "t") worker
translate-alike_example =
    translate-alike context (host "s") (host "t") hosts-IsAlike recipe [] [] worker

abbrev launched : LaunchPlan
launched = record {
  docker = record {
    detach = true;
    entrypoint = some "";
    privileged = false;
    device_flags = nvidia_flags;
    ipc = "host";
    shm_size = "32gb";
    network = "host";
    user = none;
    security_opts = rootless_v1.security_opts;
    cap_add = rootless_v1.cap_add;
    ulimits = rootless_v1.ulimits;
    devices = "/dev/infiniband" ∷ [];
    memory = none;
    labels = ("io.metralectl.managed", "1") ∷ ("io.metralectl.recipe", "r") ∷ [];
    auto_remove = true;
    restart = none;
    name = "metrale-" <> "r" <> "-rank" <> decimal 1;
    env =
        ("HF_HOME", "/cache/huggingface")
        ∷ ("HF_HUB_OFFLINE", "1")
        ∷ (nccl_env ++ (("PROXY", "p/$") ∷ ("TOKEN", "t.") ∷ ("TRANSFORMERS_OFFLINE", "1") ∷ []));
    volumes = ("/c", "/cache/huggingface") ∷ [];
    image = "i";
    command =
        "met"
        ∷ "serve"
        ∷ "m"
        ∷ "--tp-size"
        ∷ decimal 2
        ∷ "--port"
        ∷ "0"
        ∷ "--rank"
        ∷ decimal 1
        ∷ "--world-size"
        ∷ decimal 2
        ∷ "--master-addr"
        ∷ "10.0.0.1"
        ∷ "--master-port"
        ∷ decimal 29500
        ∷ [];
  };
  unmapped = [];
  unknown_keys = [];
}

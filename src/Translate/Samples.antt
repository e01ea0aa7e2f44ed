-- ===== src/Translate/Samples.antt =====
-- A recipe for a cluster that reads two of the host's variables, a machine's policy, and its host.
use metralectl.Prelude.{true, ◌&&◌, leb, [], ◌∷◌, none}
use metralectl.Prelude.{String}
use metralectl.Protocol.{pos}
use metralectl.Settings.Gate.{ScalarValue}
use metralectl.LocalControl.Recipes.{Recipe, Provenance, RuntimeKind}
use metralectl.Translate.Environment.{HostSnapshot}
use metralectl.Translate.{LaunchContext, rootless_v1, nvidia_flags, nccl_env}

abbrev pub recipe : Recipe
recipe = record {
  name = "r";
  provenance = Provenance.builtin "r.yaml";
  recipe_version = "2";
  model = "m";
  model_revision = none;
  runtime = RuntimeKind.metrale;
  container = "i";
  topology = record { min_nodes = 2; max_nodes = none };
  defaults =
      ("port", ScalarValue.int (pos 8888)) ∷ ("tensor_parallel", ScalarValue.int (pos 2)) ∷ [];
  env = ("PROXY", "${HTTPS_PROXY}/$") ∷ ("TOKEN", "t$HF_TOKEN.") ∷ [];
  description = none;
  requires = none;
  unknown_keys = [];
  refused_keys = [];
}

abbrev pub context : LaunchContext
context = record {
  profile = rootless_v1;
  device_flags = nvidia_flags;
  cluster_env = nccl_env;
  rendering = record { render_float = λ x. ""; is_nonzero = λ x. true };
  alphanumeric = λ n. leb b'A' n && leb n b'z';
  is_ip_addr = λ s. true;
}

abbrev pub host : String → HostSnapshot
host token = record {
  posix_user = none;
  home = "/home/u";
  hf_cache_dir = "/c";
  env = ("HF_TOKEN", token) ∷ ("HTTPS_PROXY", "p") ∷ [];
}

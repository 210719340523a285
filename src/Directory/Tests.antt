-- ===== src/Directory/Tests.antt =====
-- A directory at concrete instances.
use runtime_assistant_agent.Base.{true, false, ◌≡◌, refl, none, some, List, [], ◌∷◌}
use runtime_assistant_agent.Base.Dict.{lookup, insert}
use runtime_assistant_agent.Directory.{
  AgentInstance, AgentDirectory, register, default_agent_instance, directory, resolve,
}
use runtime_assistant_agent.Directory.Resolve.{IsRouted, resolve-IsRouted}

abbrev pub worker : AgentInstance
worker = record {
  agent_id = "agent.worker";
  role = "worker";
  capabilities = "render_3d" ∷ "ocr" ∷ [];
  enabled = true;
  can_delegate = false;
  allowed_targets = [];
  transports = "local" ∷ [];
}

abbrev pub asleep : AgentInstance
asleep = record worker { agent_id = "agent.asleep"; enabled = false }

abbrev pub instances : List AgentInstance
instances = worker ∷ asleep ∷ default_agent_instance true [] ∷ []

abbrev pub built : AgentDirectory
built =
    ("agent.worker", worker)
    ∷ ("agent.asleep", asleep)
    ∷ ("agent.default", default_agent_instance true [])
    ∷ []

pub directory-built : directory instances ≡ some built
unfolding directory lookup insert
directory-built = refl

double_registration : register worker built ≡ none
unfolding lookup
double_registration = refl

resolve-IsRouted_example : IsRouted instances none (some "ocr") worker
unfolding resolve
resolve-IsRouted_example =
    resolve-IsRouted instances built none (some "ocr") worker directory-built refl

-- ===== src/Engine.antt =====
-- The STT engines: crates/daemon/src/engine.rs, less files and downloads.
use whispy.Base.{some, List, [], ◌∷◌, ◌≡◌, refl, find, list_eq}
use whispy.Choice.{ConfigChoice, ComputeBackend, as_str, compute_choice}
use whispy.Pipeline.{VocabStrategy, off, correct, prompt}
use whispy.Text.Words.{join}
use whispy.Text.{Text, codes}

-- `Engine`.
pub data Engine : Type 0 where
  whisper parakeet : Engine

abbrev pub engine_str : Engine → Text
engine_str whisper = codes "whisper"
engine_str parakeet = codes "parakeet"

pub engine_back :
    (c : Engine)
    → find (λ d. list_eq (engine_str d) (engine_str c)) (parakeet ∷ whisper ∷ []) ≡ some c
engine_back whisper = refl
engine_back parakeet = refl

instance abbrev pub engine_choice : ConfigChoice Engine
engine_choice = record {
  all_values = parakeet ∷ whisper ∷ [];
  as_str = engine_str;
  parsed_back = engine_back;
}

-- `extra_server_args`, of `stt.backend`.
unfoldable pub extra_server_args : Engine → ComputeBackend → List Text
extra_server_args whisper backend = []
extra_server_args parakeet backend = codes "--backend" ∷ as_str backend ∷ []

-- `server_name`.
unfoldable pub server_name : Engine → Text
server_name whisper = codes "whisper-server"
server_name parakeet = codes "whispy-stt"

-- `setup_step`.
unfoldable pub setup_step : Engine → Text
setup_step whisper = codes "whisper"
setup_step parakeet = codes "stt"

-- `vocabulary`.
unfoldable pub vocabulary : Engine → List Text → VocabStrategy
unfolding join
vocabulary engine [] = off
vocabulary whisper (w ∷ ws) = prompt (join (codes ", ") (w ∷ ws))
vocabulary parakeet (w ∷ ws) = correct

-- ===== src/Program/Tests.antt =====
-- Runs of the loader of user_program.rs up to its segments, and of its argument vector.
use leaf_os_alpha.Base.{ℕ, ◌≡◌, refl, true, List, [], ◌∷◌, ok, err, arith}
use leaf_os_alpha.Program.{Segments, empty_image, parse_app_image, load_app_image, load_raw_image}
use leaf_os_alpha.Program.Header.{app_image, load_app_image-app_image}
use leaf_os_alpha.Program.Accepted.{Accepts, load_app_image-Accepts}
use leaf_os_alpha.Program.Arguments.{build_argument_vector}
use leaf_os_alpha.Program.Arguments.Built.{reference, build_argument_vector-eq-reference}

abbrev code : List ℕ
code = 0x90 ∷ 0xc3 ∷ []

abbrev data_bytes : List ℕ
data_bytes = 1 ∷ 2 ∷ 3 ∷ []

abbrev segments : Segments
segments = record { code = code; data_bytes = data_bytes; bss_len = 8; entry_offset = 1 }

load_app_image-app_image_example : load_app_image (app_image 1 code data_bytes 8) ≡ ok segments
load_app_image-app_image_example =
    load_app_image-app_image 1 code data_bytes 8 (omega arith) (omega arith)

load_app_image-Accepts_example : Accepts (app_image 1 code data_bytes 8) segments
load_app_image-Accepts_example =
    load_app_image-Accepts (app_image 1 code data_bytes 8) segments
      (load_app_image-app_image 1 code data_bytes 8 (omega arith) (omega arith))

-- "/a.app", called with "hi" and with an empty string.
abbrev path : List ℕ
path = 0x2f ∷ 0x61 ∷ 0x2e ∷ 0x61 ∷ 0x70 ∷ 0x70 ∷ []

abbrev arguments : List (List ℕ)
arguments = (0x68 ∷ 0x69 ∷ []) ∷ [] ∷ []

build_argument_vector-eq-reference_example :
    build_argument_vector (λ size. true) path arguments ≡ reference (λ size. true) path arguments
build_argument_vector-eq-reference_example =
    build_argument_vector-eq-reference (λ size. true) path arguments

-- An image of no code is refused, and so is an empty raw image.
no_code : load_app_image (app_image 0 [] data_bytes 8) ≡ err empty_image
unfolding load_app_image parse_app_image
no_code = refl

no_image : load_raw_image [] ≡ err empty_image
unfolding load_raw_image
no_image = refl

-- ===== src/Tests/Services.antt =====
-- Descriptors, messages, runners and log entries, at concrete inputs.
use image_assembler.Base.{
  ℕ, ◌+◌, String, some, List, [], ◌∷◌, ◌≡◌, refl, arith, length, contains, if◌then◌else◌, ◌==◌,
}
use image_assembler.Base.Int.{ℤ, pos, negsuc}
use image_assembler.Base.Result.{ok, err}
use image_assembler.Base.Atoi.{codes}
use image_assembler.Value.{Value, null, arr, nil}
use image_assembler.Ipc.FdSet.{steal, close, open_count, already_stolen}
use image_assembler.Ipc.FdSet.Owned.{steal_owned, close-empty, times}
use image_assembler.Registry.Runners.{RunnerInfo, detect_runner, of_distro, parse_runner_name}
use image_assembler.Registry.Runners.Best.{detect_runner-IsChoice, IsChoice}
use image_assembler.Service.Protocol.{
  encode_method, encode_reply, encode_signal, encode_exception, decode_method, decode_reply,
  decode_exception,
}
use image_assembler.Service.Protocol.RoundTrip.{decode_as, decode-encode}
use image_assembler.Monitor.Context.{new_context, as_dict, position, full_dict, compact_dict}
use image_assembler.Monitor.Context.Correlated.{
  Move, moves, to_pipeline, to_stage, show, as_dict_correlated,
}

abbrev three_fds : List ℤ
three_fds = pos 7 ∷ pos 8 ∷ negsuc 0 ∷ []

steal_owned_example :
    (steal (pos 1) (steal (pos 1) three_fds).0 ≡ ((steal (pos 1) three_fds).0, err already_stolen))
    × ((k : ℕ)
        → times k (close three_fds).1
          ≡ (if 8 == k then 1 else 0) + times k (close (steal (pos 1) three_fds).0).1)
unfolding steal
steal_owned_example = steal_owned three_fds (pos 1) 8 refl

close-empty_example :
    (open_count (close three_fds).0 ≡ 0)
    × (length (close three_fds).0 ≡ length three_fds)
    × (length (close three_fds).1 ≡ open_count three_fds)
close-empty_example = close-empty three_fds

abbrev runner : String → ℕ → RunnerInfo
runner distro version = record { distro = codes distro; version = version; path = distro }

abbrev two_runners : List RunnerInfo
two_runners = runner "centos" 9 ∷ runner "fedora" 38 ∷ runner "fedora" 40 ∷ []

detected : detect_runner (codes "fedora39") two_runners ≡ some (runner "fedora" 38)
unfolding detect_runner
detected = refl

detect_runner-IsChoice_example :
    IsChoice 39
      (of_distro (codes "fedora") two_runners)
      (detect_runner (codes "fedora39") two_runners)
unfolding parse_runner_name
detect_runner-IsChoice_example =
    detect_runner-IsChoice (codes "fedora39") two_runners
      (
        ((λ same. omega arith), ((λ same. omega arith), tt)),
        (((λ same. omega arith), tt), (tt, tt)),
      )
      (λ e. cc)

decode-encode_example :
    (decode_as decode_method (encode_method "put" null) ≡ ok ("method", ("put", arr nil)))
    × (decode_as decode_reply (encode_reply null) ≡ ok ("reply", null))
    × (decode_as decode_reply (encode_signal null) ≡ ok ("signal", null))
    × (decode_as (λ d. ok (decode_exception d)) (encode_exception "put" "v" "b")
        ≡ ok ("exception", record { name = "put"; value = "v"; backtrace = "b" }))
decode-encode_example = decode-encode "put" "v" "b" null

-- A hash that shows nothing.
abbrev blind : Value → String
blind v = "h"

abbrev a_build : List Move
a_build = to_pipeline "build" "1" ∷ show ∷ to_stage "rpm" "2" ∷ []

as_dict_correlated_example :
    let at = moves blind a_build ([], new_context "org.osbuild") in
    let i = blind (position at.1) in
    let shown = as_dict blind at.0 at.1 in
    (shown.2 ≡ (if contains at.0 i then compact_dict i else full_dict i at.1))
    × ((as_dict blind shown.0 shown.1).2 ≡ compact_dict i)
as_dict_correlated_example = as_dict_correlated blind "org.osbuild" a_build

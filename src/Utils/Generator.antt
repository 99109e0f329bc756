-- ===== src/Utils/Generator.antt =====
-- `_urlGenerator` of cpp/demo.cpp: a dispatcher makes the parts of a URL, which a combinator joins.
pub mod Made
pub mod Texts
pub mod Laws
use c_workspace.Common.{
  ℕ, leb, Bool, true, false, if◌then◌else◌, Option, none, some, ◌>>=◌, List, [], ◌∷◌, ◌++◌, length,
  drop,
}
use c_workspace.Utils.Text.{Text, codes, same, string_to_upper}
use c_workspace.Utils.Dispatcher.{Order, Dispatcher, dispatcher, add_lamda, proceed}
use c_workspace.Utils.Combinator.{Combinator, combinator, map, filter, reduce}

-- The name of a parameter, and raw data.
abbrev pub ProcessParam : Type 0
ProcessParam = Text × Text

-- The name of a parameter, and its value.
abbrev pub ProcessReturn : Type 0
ProcessReturn = Text × Text

-- `substr`, which throws behind the end.
abbrev pub substr : ℕ → Text → Option Text
substr pos s = if leb pos (length s) then some (drop pos s) else none

abbrev pub is_username : ProcessParam → Bool
is_username param = same param.0 (codes "username")

abbrev pub username : ProcessParam → Option ProcessReturn
username param = substr 3 param.1 >>= λ value. some (codes "username", value)

abbrev pub is_pwd : ProcessParam → Bool
is_pwd param = same param.0 (codes "pwd")

abbrev pub pwd : ProcessParam → Option ProcessReturn
pwd param = some (codes "pwd", string_to_upper param.1)

abbrev pub is_ip : ProcessParam → Bool
is_ip param = same param.0 (codes "ip")

abbrev pub ip : ProcessParam → Option ProcessReturn
ip param = some (codes "ip", codes "10.0.0.27")

-- The dispatcher with its three processes. `order` is the order of iteration after an insertion.
unfoldable pub url_generator :
    Order ProcessReturn ProcessParam → Dispatcher ProcessReturn ProcessParam
url_generator order = add_lamda order (codes "ip") is_ip ip (
    add_lamda order (codes "pwd") is_pwd pwd (
      add_lamda order (codes "username") is_username username
        (dispatcher (λ param. some ([], [])))))

-- What is given to `map`: a name and its value, or what is thrown.
unfoldable pub part : Dispatcher ProcessReturn ProcessParam → Text → Text → Option Text
part generator data_to_process url_param_name = do
  result ← proceed generator (url_param_name, data_to_process)
  processed ← result
  some (processed.0 ++ (codes "=" ++ processed.1))

-- `urlParamStr`
unfoldable pub url_param_str : Order ProcessReturn ProcessParam → List Text → Text → Option Text
unfolding url_generator part
url_param_str order param_we_need data_to_process = do
  parts ← map (part (url_generator order) data_to_process) (combinator param_we_need)
  some (
      reduce [] (λ accu s. (accu ++ s) ++ codes "&")
        (filter (λ s. if same s (codes "=") then false else true) parts))

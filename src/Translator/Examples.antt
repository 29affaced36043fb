-- ===== src/Translator/Examples.antt =====
-- internal/translator: the theorems on the translator at a concrete run.
use mathlib.Core.Path.{subst, sym}
use erssi_lith_bridge.Base.{◌≡◌, refl, true, false, [], ◌∷◌, none, some, err, Option, Bytes}
use erssi_lith_bridge.Base.Int.{pos, incr_int32}
use erssi_lith_bridge.Base.Text.{codes, Lacks, to_lower, join, str_eq, hex, digits}
use erssi_lith_bridge.Base.Assoc.{lookup, insert}
use erssi_lith_bridge.Erssi.Types.{
  WebMessage, message, zero_message, Members, string, array, object, stop, value, close, member,
  state_dump,
}
use erssi_lith_bridge.Translator.State.{
  BufferState, Host, Translator, buffer_key, pointer_text, generate_pointer, new_translator,
}
use erssi_lith_bridge.Translator.Buffers.{
  add_buffer, with_existing, create_buffer_with_topic, ensure_buffer, find_or_create, make_line,
  erssi_message_to_line, generate_tags, trim_lines, ensure_server_buffer,
}
use erssi_lith_bridge.Translator.Views.{buffer_not_found, input_to_erssi_command}
use erssi_lith_bridge.Translator.Changes.{
  erssi_message_to_line-Changes, ensure_server_buffer-Yields, then-Changes, Changes,
}
use erssi_lith_bridge.Translator.Identity.{
  IsTicking, HasPointers, Changes-HasPointers, HasPointers-new,
}
use erssi_lith_bridge.Translator.Lookup.{IsRange, input_to_erssi_command-server}
use erssi_lith_bridge.Translator.History.{deliver}
use erssi_lith_bridge.Translator.Stable.{Changes-IsMap, own-IsRange}

abbrev pub a_host : Host
a_host = record { clock = λ n. n; unicode_lower = λ s. s; parse_nicks = λ s. none }

pub ticking : IsTicking a_host
ticking i j e = e

abbrev pub hello : WebMessage
hello = record (zero_message message) {
  server_tag = codes "net";
  target = codes "#Go";
  nick = codes "bob";
  text = codes "hi";
}

abbrev pub first_buffer : BufferState
first_buffer = record {
  pointer = codes "0x0";
  number = pos 1;
  server_tag = codes "net";
  name = codes "net.#Go";
  short_name = codes "#Go";
  title = [];
  lines =
      record {
        pointer = codes "0x1";
        buffer_ptr = codes "0x0";
        date = pos 0;
        date_printed = pos 0;
        displayed = true;
        highlight = false;
        tags = codes "notify_message,nick_bob";
        prefix = codes "bob";
        message = codes "hi";
      }
      ∷ [];
  nicks = [];
  is_server = false;
}

-- a channel's buffer with one line, and a server's
abbrev two_buffers : Translator
two_buffers =
    (ensure_server_buffer a_host (codes "net") (deliver a_host (hello ∷ []) new_translator)).1

abbrev second_buffer : BufferState
second_buffer = record {
  pointer = codes "0x3";
  number = pos 2;
  server_tag = codes "net";
  name = codes "net";
  short_name = codes "net";
  title = codes "Server net";
  lines = [];
  nicks = [];
  is_server = true;
}

two_buffers-Changes : Changes a_host new_translator two_buffers
unfolding deliver
two_buffers-Changes =
    then-Changes (erssi_message_to_line-Changes a_host hello new_translator)
      (ensure_server_buffer-Yields a_host (codes "net")
        (deliver a_host (hello ∷ []) new_translator)).0

two_buffers-HasPointers : HasPointers a_host two_buffers
two_buffers-HasPointers =
    Changes-HasPointers a_host ticking two_buffers-Changes (HasPointers-new a_host)

two_buffers-IsRange : IsRange two_buffers.buffers two_buffers.buffers
two_buffers-IsRange = own-IsRange two_buffers (Changes-IsMap two_buffers-Changes tt)

first_found :
    lookup (buffer_key a_host (codes "net") (codes "#go")) two_buffers.buffers ≡ some first_buffer
unfolding lookup buffer_key to_lower deliver erssi_message_to_line find_or_create ensure_buffer
    create_buffer_with_topic with_existing add_buffer generate_pointer pointer_text hex digits
    make_line generate_tags join trim_lines insert str_eq incr_int32 ensure_server_buffer
first_found = refl

second_found : lookup (codes "net") two_buffers.buffers ≡ some second_buffer
unfolding lookup buffer_key to_lower deliver erssi_message_to_line find_or_create ensure_buffer
    create_buffer_with_topic with_existing add_buffer generate_pointer pointer_text hex digits
    make_line generate_tags join trim_lines insert str_eq incr_int32 ensure_server_buffer
second_found = refl

pub net_Lacks : Lacks b'.' (codes "net")
net_Lacks = (λ e. cc, (λ e. cc, (λ e. cc, tt)))

-- the pointer of the second is of no other buffer
only_net :
    (key : Bytes) (b : BufferState)
    → lookup key two_buffers.buffers ≡ some b
    → b.pointer ≡ codes "0x3"
    → Lacks b'.' key
only_net key b there same =
    subst (Lacks b'.')
      (sym (
        two_buffers-HasPointers.distinct key (codes "net") b second_buffer there second_found same))
      net_Lacks

input_to_erssi_command-server_example :
    input_to_erssi_command (codes "0x3") (codes "hi") two_buffers.buffers
    ≡ err (buffer_not_found (codes "0x3"))
input_to_erssi_command-server_example =
    input_to_erssi_command-server two_buffers.buffers (codes "0x3") (codes "hi") two_buffers.buffers
      two_buffers-IsRange only_net

-- one server with one channel
abbrev a_server : Members
a_server = member (codes "tag") (string (codes "net")) (
    member (codes "channels")
      (array (value (object (member (codes "name") (string (codes "#Go")) close)) stop)) close)

abbrev a_dump : WebMessage
a_dump = record (zero_message state_dump) {
  extra_data = member (codes "servers") (array (value (object a_server) stop)) close;
}

abbrev no_json : Bytes → Option Members
no_json s = none

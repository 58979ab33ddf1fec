-- ===== src/Tests/Node.antt =====
-- The theorems on the write of a value to a node, on a server that has lost every session.
use opcua_mcp.Prelude.{ℕ, refl, true, [], arith}
use opcua_mcp.Prelude.Int.{pos, neg}
use opcua_mcp.Prelude.Result.{ok}
use opcua_mcp.Value.{int}
use opcua_mcp.Write.NodeType.{NodeTypeInfo, type_int16}
use opcua_mcp.Write.Node.{Wire, type_info, write_node, get_node_type_info}
use opcua_mcp.Write.Node.Typed.{Checked, write_node-Checked}
use opcua_mcp.Tests.Session.{net, live}
use opcua_mcp.Tests.Write.{runtime}

abbrev wire : Wire ℕ
wire = record {
  is_node_id = λ s. true;
  is_variant = λ v. true;
  data_type = λ s c w. (ok (record { namespace = 0; int_id = 4 }), c, w);
  value_rank = λ s c w. (ok (neg 1), c, w);
  array_dimensions = λ s c w. (ok [], c, w);
  access_level = λ s c w. (ok 3, c, w);
  user_access_level = λ s c w. (ok 3, c, w);
}

abbrev info : NodeTypeInfo
info = type_info (record { namespace = 0; int_id = 4 }) (neg 1) [] 3 3

write_node-Checked_example :
    Checked wire net runtime "ns=2;s=Pump"
      (int (pos 5))
      info
      type_int16
      live
      0
      (write_node wire net runtime "ns=2;s=Pump" (int (pos 5)) live 0)
unfolding get_node_type_info
write_node-Checked_example =
    write_node-Checked wire net runtime "ns=2;s=Pump" (int (pos 5)) live live 0 0 info type_int16
      refl refl refl refl (omega arith, omega arith)

-- ===== src/Agent/Telemetry/Laws.antt =====
-- What the collector returns.
use cluster_monitor.Prelude.{
  ◌≡◌, refl, sym, ap, ◌∙◌, String, Bool, true, false, ◌&&◌, ◌||◌, Option, none, some, List, [], ◌∷◌,
  if◌then◌else◌, map,
}
use mathlib.Core.List.{Perm}
use cluster_monitor.Prelude.Int.{ℤ, pos, sub_ℕ, pos_part, neg_part}
use cluster_monitor.Prelude.Order.{◌==◌, string_ord}
use cluster_monitor.Go.Result.{ok, err, plain, ok-injective}
use cluster_monitor.Go.Time.{add}
use cluster_monitor.Go.Keys.{has, is_some}
use cluster_monitor.Go.Sort.{IsUnrepeated}
use cluster_monitor.Go.Exec as Exec
use cluster_monitor.Go.Float.{Float64}
use cluster_monitor.Go.Map.{GoMap, keys, lookup, lookup-assign}
use cluster_monitor.Api.{Payload, gpu_telemetry, GpuNode}
use cluster_monitor.Agent.Kube.{Node, Client}
use cluster_monitor.Agent.Dcgm.{
  Prometheus, Value, SampleStream, Range, DcgmMetricSamples, converted, matrix_of, merge_streams,
  gpu_util_metric, gpu_memory_used_metric,
}
use cluster_monitor.Agent.Telemetry.{
  Samples, label_hostname, assign_host, nodes_by_hostname, samples_by_host,
  build_gpu_telemetry_message,
}
use cluster_monitor.Agent.Telemetry.Collect.{
  range_before, query_range, query_dcgm_metric, build_hostname_to_nodes, measure, collect,
}
use cluster_monitor.Agent.Telemetry.Samples.{
  value_list, host_values, samples_by_host-eq-host_values,
}
use cluster_monitor.Agent.Telemetry.Entries.{
  AllSelected, entry_of, build_gpu_telemetry_message-perm,
}

-- `-d`
abbrev pub negated : ℤ → ℤ
negated d = sub_ℕ (neg_part d) (pos_part d)

-- whether a label names the host `h`
abbrev pub names_host : String → Option String → Bool
names_host h none = false
names_host h (some hostname) = hostname == h

module _ {Q : Type 0} where
  -- the last node whose label names the host `h`
  abbrev pub last_at : String → Option (Node Q) → List (Node Q) → Option (Node Q)
  last_at h found [] = found
  last_at h found (node ∷ nodes) =
      last_at h (if names_host h (lookup label_hostname node.labels) then some node else found)
        nodes

  assign_host-lookup :
      (h : String) (o : Option String) (node : Node Q) (m : GoMap String (Node Q))
      → lookup h (assign_host o node m) ≡ (if names_host h o then some node else lookup h m)
  assign_host-lookup h none node m = refl
  assign_host-lookup h (some hostname) node m = rw lookup-assign refl

  nodes_by_hostname-lookup :
      (h : String) (m : GoMap String (Node Q)) (nodes : List (Node Q))
      → lookup h (nodes_by_hostname m nodes) ≡ last_at h (lookup h m) nodes
  unfolding nodes_by_hostname
  nodes_by_hostname-lookup h m [] = refl
  nodes_by_hostname-lookup h m (node ∷ nodes) =
      nodes_by_hostname-lookup h (assign_host (lookup label_hostname node.labels) node m) nodes
      ∙ ap (λ o. last_at h o nodes)
          (assign_host-lookup h (lookup label_hostname node.labels) node m)

  pub nodes_by_hostname-eq-last_at :
      (h : String) (nodes : List (Node Q))
      → lookup h (nodes_by_hostname [] nodes) ≡ last_at h none nodes
  unfolding lookup
  nodes_by_hostname-eq-last_at h nodes = nodes_by_hostname-lookup h [] nodes

module _ {F : Type 0} (float : Float64 F) {Q : Type 0} (client : Client Q)
    (prom : Prometheus client.State float.Carrier) (target_node_selector : GoMap String String)
    (metrics_duration : ℤ) where
  -- The samples are what the client of Prometheus returned for a metric over a range: a matrix, whose
  -- streams all have a key.
  pub record Queried (name : String) (range : Range) (s t : client.State)
      (samples : DcgmMetricSamples float.Carrier) : Type 0 where
    pub value : Value float.Carrier
    pub streams : List (SampleStream float.Carrier)
    pub answered : prom.query_range name range s ≡ (ok value, t)
    pub is_matrix : value.is_matrix ≡ true
    pub converts : value.as_matrix ≡ some streams
    pub merged : merge_streams streams ≡ ok samples

  matrix_of-ok :
      (v : Value float.Carrier) (streams : List (SampleStream float.Carrier))
      → matrix_of v ≡ ok streams
      → (v.is_matrix ≡ true) × (v.as_matrix ≡ some streams)
  unfolding matrix_of
  matrix_of-ok v streams h = go v.is_matrix v.as_matrix h
    where
      go :
          (b : Bool) (o : Option (List (SampleStream float.Carrier)))
          → elim b [ true ↦ converted o | false ↦ err plain ] ≡ ok streams
          → (b ≡ true) × (o ≡ some streams)
      go true (some l) k = (refl, ap some (ok-injective k))
      go true none k = cc
      go false o k = cc

  query-Queried :
      (name : String) (range : Range) (s : client.State) (samples : DcgmMetricSamples float.Carrier)
      → (query_dcgm_metric prom name range s).0 ≡ ok samples
      → Queried name range s (query_dcgm_metric prom name range s).1 samples
  unfolding query_dcgm_metric query_range
  query-Queried name range s samples h =
      let (streams, e1, h1, k1) = Exec.bind_inversion (query_range prom name range) _ s h in
      let (value, e2, h2, k2) = Exec.bind_inversion (prom.query_range name range) _ s e1 in
      let (m, c) = matrix_of-ok value streams h2 in
      record {
        value = value;
        streams = streams;
        answered = λ i. (e2 i, (sym (k1 ∙ k2)) i);
        is_matrix = m;
        converts = c;
        merged = h1;
      }

  -- The clock is read, the nodes are listed, and both metrics are queried, one after the other and
  -- over the duration that ends at the time that the clock showed, in steps of 30 seconds. The maps
  -- of the samples hold for each host and instant just the values of the keys of the host that name
  -- a pod, and a host has the last node whose label names it. There is one entry for each host that
  -- has samples and a node, as `entry_of` describes it.
  pub record Measures (s : client.State) (payload : Payload F) : Type 0 where
    pub nodes : List (Node Q)
    pub util : DcgmMetricSamples float.Carrier
    pub mem : DcgmMetricSamples float.Carrier
    pub listed_at : client.State
    pub util_at : client.State
    pub mem_at : client.State
    pub range : Range
    pub range_start : range.start ≡ add (prom.now s).0 (negated metrics_duration)
    pub range_end : range.end ≡ (prom.now s).0
    pub range_step : range.step ≡ pos 30
    pub listed : client.list_nodes target_node_selector (prom.now s).1 ≡ (ok nodes, listed_at)
    pub util_read : Queried "DCGM_FI_DEV_GPU_UTIL" range listed_at util_at util
    pub mem_read : Queried "DCGM_FI_DEV_FB_USED" range util_at mem_at mem
    pub by_hostname : GoMap String (Node Q)
    pub node_at : (h : String) → lookup h by_hostname ≡ last_at h none nodes
    pub util_by_host : GoMap String (Samples float.Carrier)
    pub util_values : (h : String) (t : ℤ) → value_list h t util_by_host ≡ host_values h t util
    pub mem_by_host : GoMap String (Samples float.Carrier)
    pub mem_values : (h : String) (t : ℤ) → value_list h t mem_by_host ≡ host_values h t mem
    pub entries : List (GpuNode F)
    pub sent : payload ≡ gpu_telemetry (record { nodes = entries })
    pub described :
        (hosts : List (String × Node Q))
        → IsUnrepeated (keys hosts)
        → AllSelected float util_by_host mem_by_host by_hostname hosts
        → ((g : String)
            → has g (keys hosts) ≡ (
                (has g (keys util_by_host) || has g (keys mem_by_host))
                && is_some (lookup g by_hostname)))
        → Perm entries (map (entry_of float util_by_host mem_by_host by_hostname) hosts)

  pub collect-Measures :
      (s : client.State) (payload : Payload F)
      → (collect float client prom target_node_selector metrics_duration s).0 ≡ ok payload
      → Measures s payload
  unfolding collect build_hostname_to_nodes measure Exec.◌>>=◌
  collect-Measures s payload h =
      let list = client.list_nodes target_node_selector in
      let (now, s0) = prom.now s in
      let range = range_before now metrics_duration in
      let build = build_hostname_to_nodes float client prom target_node_selector metrics_duration in
      let rest = measure float client prom target_node_selector metrics_duration now in
      let query = λ (name : String). query_dcgm_metric prom name range in
      let (m, e1, h1, _) = Exec.bind_inversion build rest s0 h in
      let (nodes, e2, h2, k2) = Exec.bind_inversion list _ s0 e1 in
      let s1 = (list s0).1 in
      let resumed : (rest m s1).0 ≡ ok payload = ap (λ z. (rest m z).0) (sym k2) ∙ h1 in
      let (util, e3, h3, _) = Exec.bind_inversion (query gpu_util_metric) _ s1 resumed in
      let s2 = (query gpu_util_metric s1).1 in
      let (mem, e4, h4, _) = Exec.bind_inversion (query gpu_memory_used_metric) _ s2 h3 in
      let by_hostname = nodes_by_hostname [] nodes in
      let util_by_host = samples_by_host [] util in
      let mem_by_host = samples_by_host [] mem in
      record {
        nodes = nodes;
        util = util;
        mem = mem;
        listed_at = s1;
        util_at = s2;
        mem_at = (query gpu_memory_used_metric s2).1;
        range = range;
        range_start = refl;
        range_end = refl;
        range_step = refl;
        listed = λ i. (e2 i, s1);
        util_read = query-Queried gpu_util_metric range s1 util e3;
        mem_read = query-Queried gpu_memory_used_metric range s2 mem e4;
        by_hostname = by_hostname;
        node_at = λ g. nodes_by_hostname-eq-last_at g nodes;
        util_by_host = util_by_host;
        util_values = λ g t. samples_by_host-eq-host_values g t util;
        mem_by_host = mem_by_host;
        mem_values = λ g t. samples_by_host-eq-host_values g t mem;
        entries = build_gpu_telemetry_message float util_by_host mem_by_host by_hostname;
        sent = rw (ok-injective h2) (sym (ok-injective h4));
        described = build_gpu_telemetry_message-perm float util_by_host mem_by_host by_hostname;
      }

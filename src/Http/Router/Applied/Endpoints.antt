-- ===== src/Http/Router/Applied/Endpoints.antt =====
-- The endpoints of policies.go and firewall.go that change what the ruleset is made of.
use rpi_network_filter.Http.Policies as Policies
use rpi_network_filter.Http.Firewall as Firewall

-- ===== src/Audit/Checks.antt =====
-- internal/audit/audit.go: the three tables of checks. The system's have no level in the source;
-- its loop grades each as WARNING.
use ghost_ship.Base.{String, Bool, List, [], ◌∷◌, count, ltb, ◌==◌}
use ghost_ship.Base.Text.{trim_space, has_infix, nonempty}

pub record Check : Type 0 where
  pub name : String
  pub cmd : String
  pub pass : String → Bool
  pub issue : String
  pub level : String

abbrev pub is_zero : String → Bool
is_zero s = trim_space s == "0"

abbrev pub ssh_check : Check
ssh_check = record {
  name = "SSH key-based auth";
  cmd = "grep -i 'passwordauthentication no' /etc/ssh/sshd_config";
  pass = nonempty;
  issue = "SSH password authentication is enabled";
  level = "WARNING";
}

abbrev pub firewall_check : Check
firewall_check = record {
  name = "Firewall active";
  cmd = "sudo ufw status | grep 'Status: active'";
  pass = nonempty;
  issue = "UFW firewall is not active";
  level = "WARNING";
}

abbrev pub fail2ban_check : Check
fail2ban_check = record {
  name = "Fail2Ban running";
  cmd = "sudo systemctl is-active fail2ban";
  pass = λ s. has_infix s "active";
  issue = "Fail2Ban service is not running";
  level = "WARNING";
}

abbrev pub mac_check : Check
mac_check = record {
  name = "SELinux/AppArmor";
  cmd = "getenforce 2>/dev/null || aa-status 2>/dev/null | head -1";
  pass = λ s. nonempty (trim_space s);
  issue = "No MAC (SELinux/AppArmor) detected";
  level = "WARNING";
}

abbrev pub sudo_check : Check
sudo_check = record {
  name = "Sudo audit logging";
  cmd = "grep -i 'audit.*sudo' /etc/audit/rules.d/* 2>/dev/null | head -1";
  pass = nonempty;
  issue = "Sudo commands are not being audited";
  level = "WARNING";
}

abbrev pub system_checks : List Check
system_checks = ssh_check ∷ firewall_check ∷ fail2ban_check ∷ mac_check ∷ sudo_check ∷ []

abbrev pub daemon_check : Check
daemon_check = record {
  name = "Docker daemon security";
  cmd = "docker info | grep 'Security Options'";
  pass = λ s. ltb 10 (count s);
  issue = "Docker daemon has no security options enabled";
  level = "WARNING";
}

abbrev pub limits_check : Check
limits_check = record {
  name = "Container resource limits";
  cmd =
      "docker ps --format '{{.Names}}' | xargs -I {} docker inspect {} | grep -i 'memory.*0' | wc -l";
  pass = is_zero;
  issue = "Some containers have no memory limits";
  level = "WARNING";
}

abbrev pub privileged_check : Check
privileged_check = record {
  name = "Privileged containers";
  cmd = "docker ps --format '{{json .}}' | grep -i privileged | wc -l";
  pass = is_zero;
  issue = "Privileged containers detected";
  level = "CRITICAL";
}

abbrev pub socket_check : Check
socket_check = record {
  name = "Docker socket permissions";
  cmd = "ls -l /var/run/docker.sock | awk '{print $1}'";
  pass = λ s. has_infix s "srw";
  issue = "Docker socket has incorrect permissions";
  level = "CRITICAL";
}

abbrev pub docker_checks : List Check
docker_checks = daemon_check ∷ limits_check ∷ privileged_check ∷ socket_check ∷ []

abbrev pub tls_check : Check
tls_check = record {
  name = "Nomad TLS enabled";
  cmd = "grep -i 'tls.*true' /etc/nomad.d/nomad.hcl 2>/dev/null";
  pass = nonempty;
  issue = "Nomad TLS encryption is not enabled";
  level = "WARNING";
}

abbrev pub acl_check : Check
acl_check = record {
  name = "Nomad ACL enabled";
  cmd = "grep -i 'acl.*enabled' /etc/nomad.d/nomad.hcl 2>/dev/null";
  pass = nonempty;
  issue = "Nomad ACL is not enabled";
  level = "WARNING";
}

abbrev pub logging_check : Check
logging_check = record {
  name = "Nomad audit logging";
  cmd = "grep -i 'audit' /etc/nomad.d/nomad.hcl 2>/dev/null";
  pass = nonempty;
  issue = "Nomad audit logging is not configured";
  level = "INFO";
}

abbrev pub nomad_checks : List Check
nomad_checks = tls_check ∷ acl_check ∷ logging_check ∷ []
